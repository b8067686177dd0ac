-- ===== src/Task/Payload.antt =====
-- internal/task/handlers.go: reading a task's payload, and internal/task/context.go: the percentage
-- that a handler reports. `other` is a value that is neither a text nor a Boolean, with what
-- fmt.Sprintf or its String method prints.
use vm_orbit.Base.{
  ℕ, String, Bool, true, false, Option, none, some, ltb, if◌then◌else◌, nat_eq, string_eq, ℤ, pos,
  negsuc,
}
use vm_orbit.Base.Map.{Map, lookup}

pub data PayloadValue : Type 0 where
  text other : String → PayloadValue
  flag : Bool → PayloadValue

abbrev pub Payload : Type 0
Payload = Map String PayloadValue

abbrev pub printed : Option PayloadValue → String
printed none = ""
printed (some (text s)) = s
printed (some (other s)) = s
printed (some (flag true)) = "true"
printed (some (flag false)) = "false"

-- A nil payload has no keys.
unfoldable pub string_from_payload : Payload → String → String
string_from_payload p key = printed (lookup key p)

abbrev pub truth : Option PayloadValue → Bool
truth (some (flag b)) = b
truth (some (text s)) = false
truth (some (other s)) = false
truth none = false

unfoldable pub bool_from_payload : Payload → String → Bool
bool_from_payload p key = truth (lookup key p)

-- TaskContext.Progress: what is stored and published of a percentage.
unfoldable pub reported_progress : ℤ → ℕ
reported_progress (negsuc _) = 0
reported_progress (pos p) = if ltb 100 p then 100 else p
