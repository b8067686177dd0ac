-- ===== src/Notification.antt =====
-- internal/domain/model/notification.go and internal/notification/dispatcher.go: which rules match a
-- platform event, and the deliveries that the dispatcher makes for them. Times are in nanoseconds, and
-- a dispatch has one; what a send answers is an argument. The writes of the history succeed. Each
-- dispatch is a goroutine over the rules as it loaded them, so that it does not see what another one
-- that overlaps it has delivered.
pub mod Rules
mod Examples
use vm_orbit.Base.{
  ℕ, zero, suc, ◌+◌, ◌-◌, ◌*◌, ◌%◌, String, Bool, true, false, not, ◌&&◌, ◌||◌, Option, none, some,
  List, [], ◌∷◌, ◌++◌, ltb, if◌then◌else◌, ◌==◌, nat_eq, string_eq, ℤ, pos, negsuc,
}
use vm_orbit.Base.{member}

pub data ChannelType : Type 0 where
  email slack webhook : ChannelType
  other_type : String → ChannelType

pub record NotificationChannel : Type 0 where
  pub type : ChannelType
  pub enabled : Bool

-- `channel` is none when the row was not loaded.
pub record NotificationRule : Type 0 where
  pub id : ℕ
  pub enabled : Bool
  pub channel_id : ℕ
  pub channel : Option NotificationChannel
  pub event_types : List String
  pub severities : List String
  pub providers : List String
  pub throttle_seconds : ℤ
  pub last_triggered_at : Option ℕ

pub record PlatformEvent : Type 0 where
  pub id : ℕ
  pub event_type : String
  pub severity : String
  pub provider : String

-- An empty list lets everything pass.
unfoldable pub passes : List String → String → Bool
passes [] value = true
passes (x ∷ xs) value = member value (x ∷ xs)

-- The filter on providers also lets events without a provider pass.
unfoldable pub passes_provider : List String → String → Bool
passes_provider [] value = true
passes_provider (x ∷ xs) value = (value == "") || member value (x ∷ xs)

unfoldable pub matches : NotificationRule → PlatformEvent → Bool
matches r event =
    r.enabled
    && (passes r.event_types event.event_type
        && (passes r.severities event.severity && passes_provider r.providers event.provider))

abbrev pub second : ℕ
second = 1000000000

-- time.Duration(n) * time.Second, which wraps at 64 bits, as a two's complement.
abbrev pub duration : ℕ → ℕ
duration n = n * second % 18446744073709551616

-- time.Since is `now - last`, which is negative for a time that lies ahead; so is a duration from
-- 2 ^ 63 on.
unfoldable pub throttled_since : ℤ → Option ℕ → ℕ → Bool
throttled_since (negsuc n) last now = false
throttled_since (pos zero) last now = false
throttled_since (pos (suc n)) none now = false
throttled_since (pos (suc n)) (some last) now =
    if ltb (duration (suc n)) 9223372036854775808
    then ltb now (last + duration (suc n))
    else ltb (now + (18446744073709551616 - duration (suc n))) last

unfoldable pub is_throttled : NotificationRule → ℕ → Bool
is_throttled r now = throttled_since r.throttle_seconds r.last_triggered_at now

pub data NotificationStatus : Type 0 where
  delivered : NotificationStatus
  failed : String → NotificationStatus
  throttled : NotificationStatus

-- A row of the history; the error message stands in its status.
pub record NotificationHistory : Type 0 where
  pub rule_id : ℕ
  pub channel_id : ℕ
  pub event_id : ℕ
  pub status : NotificationStatus
  pub attempt_count : ℕ
  pub delivered_at : Option ℕ

-- NewSender: the error's text for a type without a sender.
unfoldable pub new_sender : ChannelType → Option String
new_sender email = none
new_sender slack = none
new_sender webhook = none
new_sender (other_type t) = some t

abbrev pub delivered_time : NotificationStatus → ℕ → Option ℕ
delivered_time delivered now = some now
delivered_time (failed e) now = none
delivered_time throttled now = none

unfoldable pub record_history :
    ℕ → NotificationRule → PlatformEvent → NotificationStatus → ℕ → NotificationHistory
record_history now r event status attempts = record {
  rule_id = r.id;
  channel_id = r.channel_id;
  event_id = event.id;
  status = status;
  attempt_count = attempts;
  delivered_at = delivered_time status now;
}

-- The sends for one rule: how many were made, and the error of the last. `left` may follow.
unfoldable pub send_from : (ℕ → Option String) → ℕ → ℕ → ℕ × Option String
send_from send zero attempt = (1, send attempt)
send_from send (suc left) attempt =
    let rest = send_from send left (suc attempt) in
    elim (send attempt) [ none ↦ (1, none) | some e ↦ (suc rest.0, rest.1) ]

abbrev pub max_attempts : ℕ
max_attempts = 3

-- What dispatching does for one rule: its stored row after it, where no other dispatch writes it, its rows of the history, and how many sends
-- were made.
pub record Dispatched : Type 0 where
  pub rule : NotificationRule
  pub rows : List NotificationHistory
  pub sends : ℕ

-- `updates` is whether the write of last_triggered_at succeeds.
unfoldable pub delivered_rule : Bool → ℕ → NotificationRule → NotificationRule
delivered_rule updates now r = if updates then record r { last_triggered_at = some now } else r

-- After the sends: a delivery is recorded with the maximum of attempts, however many were made.
unfoldable pub settle : Bool → ℕ → NotificationRule → PlatformEvent → ℕ × Option String → Dispatched
settle updates now r event (n, some e) = record {
  rule = r;
  rows = record_history now r event (failed e) max_attempts ∷ [];
  sends = n;
}
settle updates now r event (n, none) = record {
  rule = delivered_rule updates now r;
  rows = record_history now r event delivered max_attempts ∷ [];
  sends = n;
}

unfoldable pub deliver_with :
    Option String → (ℕ → Option String) → Bool → ℕ → NotificationRule → PlatformEvent → Dispatched
deliver_with (some e) send updates now r event = record {
  rule = r;
  rows = record_history now r event (failed e) 1 ∷ [];
  sends = 0;
}
deliver_with none send updates now r event =
    settle updates now r event (send_from send (max_attempts - 1) 1)

abbrev pub nothing_done : NotificationRule → Dispatched
nothing_done r = record { rule = r; rows = []; sends = 0 }

unfoldable pub deliver_on :
    Option NotificationChannel
    → (ℕ → Option String)
    → Bool
    → ℕ
    → NotificationRule
    → PlatformEvent
    → Dispatched
deliver_on none send updates now r event = nothing_done r
deliver_on (some channel) send updates now r event =
    if channel.enabled
    then deliver_with (new_sender channel.type) send updates now r event
    else nothing_done r

unfoldable pub dispatch_rule :
    (ℕ → Option String) → Bool → ℕ → PlatformEvent → NotificationRule → Dispatched
dispatch_rule send updates now event r =
    if not (matches r event)
    then nothing_done r
    else if is_throttled r now
    then record { rule = r; rows = record_history now r event throttled 0 ∷ []; sends = 0 }
    else deliver_on r.channel send updates now r event

-- The rules in turn, as they were loaded; the answers of the sends may depend on the rule.
unfoldable pub dispatch_each :
    (ℕ → ℕ → Option String)
    → Bool
    → ℕ
    → PlatformEvent
    → List NotificationRule
    → List NotificationRule × List NotificationHistory
dispatch_each send updates now event [] = ([], [])
dispatch_each send updates now event (r ∷ rs) =
    let one = dispatch_rule (send r.id) updates now event r in
    let rest = dispatch_each send updates now event rs in (one.rule ∷ rest.0, one.rows ++ rest.1)

-- `none` when ListEnabled fails.
unfoldable pub dispatch :
    (ℕ → ℕ → Option String)
    → Bool
    → ℕ
    → PlatformEvent
    → Option (List NotificationRule)
    → List NotificationRule × List NotificationHistory
dispatch send updates now event none = ([], [])
dispatch send updates now event (some rules) = dispatch_each send updates now event rules
