-- ===== src/HookFs/Client.antt =====
-- pkg/hookfs/client.go: the requests to the server of the file system, and which answers are errors.
-- HTTP and the JSON encoder are parameters over a state `W`; an error is its text.
use chaosblade_operator.Base.{ℕ, String, ◌⧺◌, ◌⊎◌, inl, inr, Option, none, some, beq, if◌then◌else◌}
use chaosblade_operator.HookFs.Defs.{InjectMessage}

-- The result, the error and the code of util.PostCurl.
pub record Posted : Type 0 where
  pub result : String
  pub error : Option String
  pub code : ℕ

-- A GET request whose body is read to the end.
pub data Fetched : Type 0 where
  fetch_failed : String → Fetched
  fetched : String → ℕ → Fetched

pub record Http (W : Type 0) : Type 0 where
  pub post_curl : String → String → String → W → Posted × W
  pub get : String → W → Fetched × W

abbrev status_ok : ℕ
status_ok = 200

abbrev pub inject_url : String → String
inject_url addr = "http://" ⧺ (addr ⧺ "/inject")

abbrev pub recover_url : String → String
recover_url addr = "http://" ⧺ (addr ⧺ "/recover")

abbrev pub json : String
json = "application/json"

module _ {W : Type 0} (http : Http W) where
  abbrev pub post_error : Posted → Option String
  post_error p = elim p.error [
    | some e ↦ some e
    | none ↦ if beq p.code status_ok then none else some p.result
  ]

  abbrev pub after_post : Posted × W → Option String × W
  after_post (p, w) = (post_error p, w)

  -- InjectFault; the encoder answers an error or the body.
  unfoldable pub inject_fault :
      (InjectMessage → String ⊎ String) → String → InjectMessage → W → Option String × W
  inject_fault marshal addr msg w = elim (marshal msg) [
    | inl err ↦ (some err, w)
    | inr body ↦ after_post (http.post_curl (inject_url addr) body json w)
  ]

  abbrev pub after_get : Fetched × W → Option String × W
  after_get (fetch_failed err, w) = (some err, w)
  after_get (fetched body code, w) = (if beq code status_ok then none else some body, w)

  unfoldable pub revoke : String → W → Option String × W
  revoke addr w = after_get (http.get (recover_url addr) w)
