-- ===== src/PodIo/Requests.antt =====
-- The numbers in the request that is made of the flags of an I/O experiment.
use mathlib.Core.Path.{subst}
use chaosblade_operator.Base.{
  ℕ, ◌+◌, ◌*◌, ◌/◌, ◌<◌, ◌^◌, ◌≡◌, inl, inr, ap, arith, some, ℤ, pos, negsuc, Option-cases,
}
use chaosblade_operator.Model.Flags.{Flags}
use chaosblade_operator.HookFs.Defs.{InjectMessage}
use chaosblade_operator.PodIo.Defs.{uint32, number, request_of, Requested, request, not_integer}

-- The numbers of a message fit into 32 bits, as its fields do.
abbrev pub IsUint32 : InjectMessage → Type 0
IsUint32 msg = (msg.delay < 2 ^ 32) × (msg.percent < 2 ^ 32) × (msg.errno < 2 ^ 32)

uint32-bound : (n : ℤ) → uint32 n < 2 ^ 32
unfolding uint32
uint32-bound (pos n) = omega arith
uint32-bound (negsuc n) = omega arith

abbrev message_or : InjectMessage → Requested → InjectMessage
message_or d (request msg) = msg
message_or d (not_integer name) = d

-- An unsigned integer of 32 bits that is an integer modulo 2 ^ 32.
unfoldable pub Represents : ℤ → ℕ → Type 0
Represents (pos n) u = (u < 2 ^ 32) × ((k : ℕ) × (n ≡ u + k * 2 ^ 32))
Represents (negsuc n) u = (u < 2 ^ 32) × ((k : ℕ) × (u + (n + 1) ≡ k * 2 ^ 32))

uint32-Represents : (n : ℤ) → Represents n (uint32 n)
unfolding uint32 Represents
uint32-Represents (pos n) = (omega arith, (n / 2 ^ 32, omega arith))
uint32-Represents (negsuc n) = (omega arith, (n / 2 ^ 32 + 1, omega arith))

-- Where a request is made of the flags of an experiment, its delay, its percentage and its error
-- number are those of the flags modulo 2 ^ 32, and fit into 32 bits.
pub request_of-Represents :
    (flags : Flags) (msg : InjectMessage) (delay percent errno : ℤ)
    → number flags "delay" ≡ some delay
    → number flags "percent" ≡ some percent
    → number flags "errno" ≡ some errno
    → request_of flags ≡ request msg
    → Represents delay msg.delay × Represents percent msg.percent × Represents errno msg.errno
unfolding request_of
request_of-Represents flags msg delay percent errno d p n =
    rw (d, p, n, request_of)
      (λ e.
        subst
          (λ m. Represents delay m.delay × Represents percent m.percent × Represents errno m.errno)
          (ap (message_or msg) e)
          (uint32-Represents delay, uint32-Represents percent, uint32-Represents errno))

-- The numbers of every request fit, so it can be encoded.
pub request_of-IsUint32 :
    (flags : Flags) (msg : InjectMessage) → request_of flags ≡ request msg → IsUint32 msg
unfolding request_of
request_of-IsUint32 flags msg = elim (Option-cases (number flags "delay")) [
  | inl bad ↦ rw (bad, request_of) (λ e. absurd (cc))
  | inr (delay, d) ↦ elim (Option-cases (number flags "percent")) [
    | inl bad ↦ rw (d, bad, request_of) (λ e. absurd (cc))
    | inr (percent, p) ↦ elim (Option-cases (number flags "errno")) [
      | inl bad ↦ rw (d, p, bad, request_of) (λ e. absurd (cc))
      | inr (errno, n) ↦
          rw (d, p, n, request_of)
            (λ e.
              subst IsUint32 (ap (message_or msg) e)
                (uint32-bound delay, uint32-bound percent, uint32-bound errno))
    ]
  ]
]
