-- ===== src/Channel.antt =====
-- channel/client.go: how Exec answers. The stream to the container (the function execute, over SPDY) is
-- a parameter over a state `W`.
use chaosblade_operator.Base.{
  String, ◌⧺◌, ◌==◌, ◌≡◌, Bool, Option, none, some, List, if◌then◌else◌, trim_space,
}

-- ExecOptions without its streams and decoders; `stdin` is what is sent to the command.
pub record ExecOptions : Type 0 where
  pub pod_name : String
  pub pod_namespace : String
  pub container_name : String
  pub command : List String
  pub stdin : Option String
  pub ignore_output : Bool

-- What the stream leaves in the two buffers, and its error.
pub record Streamed : Type 0 where
  pub errput : String
  pub output : String
  pub error : Option String

abbrev pub Stream : Type 0 → Type 0
Stream W = ExecOptions → W → Streamed × W

abbrev pub no_output : String → String
no_output pod =
    "cannot get output of pods/"
    ⧺ (pod ⧺ "/exec, maybe kubelet cannot be accessed or container not found")

module _ {A : Type 0} (err_decoder out_decoder : String → Option A) where
  unfoldable pub decide : ExecOptions → Streamed → Option A
  unfolding trim_space
  decide options s =
      if trim_space s.errput == ""
      then (elim s.error [
        | some e ↦ err_decoder e
        | none ↦
            if trim_space s.output == ""
            then (if options.ignore_output then none else err_decoder (no_output options.pod_name))
            else out_decoder s.output
      ])
      else err_decoder s.errput

  -- Exec; a nil interface is `none`.
  unfoldable pub exec : {W : Type 0} → Stream W → ExecOptions → W → Option A × W
  unfolding decide
  exec stream options w = let (s, w') = stream options w in (decide options s, w')

-- The stream ended well, and the command wrote no error.
pub record IsQuiet (s : Streamed) : Type 0 where
  pub no_errput : trim_space s.errput ≡ ""
  pub no_error : s.error ≡ none
