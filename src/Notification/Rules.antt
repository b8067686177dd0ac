-- ===== src/Notification/Rules.antt =====
-- How many notifications a rule sends, how many rows it leaves, and when it may send again.
use vm_orbit.Base.{
  ℕ, zero, suc, ◌+◌, ◌*◌, ◌%◌, ◌≤◌, ◌<◌, String, ◌≡◌, refl, ap, ◌∙◌, inl, inr, Bool, true, false,
  ◌&&◌, ◌||◌, Option, none, some, List, [], ◌∷◌, arith, if◌then◌else◌, lt→ltb, Option-cases, nat_eq,
  string_eq, length, length-append, count_if, any, pos,
}
use vm_orbit.Notification.{
  NotificationChannel, NotificationRule, PlatformEvent, matches, is_throttled, throttled_since,
  second, NotificationStatus, delivered, failed, throttled, NotificationHistory, new_sender,
  record_history, send_from, Dispatched, delivered_rule, settle, deliver_with, deliver_on,
  dispatch_rule, dispatch_each,
}

-- A channel that deliveries are tried on.
abbrev pub is_usable : Option NotificationChannel → Bool
is_usable none = false
is_usable (some channel) = channel.enabled

abbrev pub is_delivered : NotificationStatus → Bool
is_delivered delivered = true
is_delivered (failed e) = false
is_delivered throttled = false

abbrev pub has_status : (NotificationStatus → Bool) → NotificationHistory → Bool
has_status p row = p row.status

-- The rules that leave a row: those that match, and are throttled or have a usable channel.
abbrev pub leaves_row : ℕ → PlatformEvent → NotificationRule → Bool
leaves_row now event r = matches r event && (is_throttled r now || is_usable r.channel)

send_from_le :
    (send : ℕ → Option String) (left attempt : ℕ)
    → (1 ≤ (send_from send left attempt).0) × ((send_from send left attempt).0 ≤ suc left)
unfolding send_from
send_from_le send zero attempt = (ground arith, ground arith)
send_from_le send (suc left) attempt = elim (Option-cases (send attempt)) [
  | inl e ↦ rw (e, send_from) (ground arith, ground arith)
  | inr (m, e) ↦
      let (low, high) = send_from_le send left (suc attempt) in
      rw (e, send_from) (ground arith, ground arith)
]

settle_rows :
    (updates : Bool) (now : ℕ) (r : NotificationRule) (event : PlatformEvent)
    (x : ℕ × Option String)
    → length (settle updates now r event x).rows ≡ 1
unfolding settle
settle_rows updates now r event (n, none) = refl
settle_rows updates now r event (n, some e) = refl

deliver_with_rows :
    (sender : Option String) (send : ℕ → Option String) (updates : Bool) (now : ℕ)
    (r : NotificationRule) (event : PlatformEvent)
    → length (deliver_with sender send updates now r event).rows ≡ 1
unfolding deliver_with
deliver_with_rows none send updates now r event = settle_rows updates now r event _
deliver_with_rows (some e) send updates now r event = refl

deliver_on_rows :
    (channel : Option NotificationChannel) (send : ℕ → Option String) (updates : Bool) (now : ℕ)
    (r : NotificationRule) (event : PlatformEvent)
    → length (deliver_on channel send updates now r event).rows
      ≡ (if is_usable channel then 1 else 0)
unfolding deliver_on
deliver_on_rows none send updates now r event = refl
deliver_on_rows (some channel) send updates now r event =
    ground (arith, deliver_with_rows (new_sender channel.type) send updates now r event)

dispatch_rule_rows :
    (send : ℕ → Option String) (updates : Bool) (now : ℕ) (event : PlatformEvent)
    (r : NotificationRule)
    → length (dispatch_rule send updates now event r).rows
      ≡ (if leaves_row now event r then 1 else 0)
unfolding dispatch_rule
dispatch_rule_rows send updates now event r =
    ground (arith, deliver_on_rows r.channel send updates now r event)

-- An event leaves one row of the history for each rule that matches it and is throttled or has an
-- enabled channel, and none for the others.
dispatch_rows :
    (send : ℕ → ℕ → Option String) (updates : Bool) (now : ℕ) (event : PlatformEvent)
    (rules : List NotificationRule)
    → length (dispatch_each send updates now event rules).1 ≡ count_if (leaves_row now event) rules
unfolding dispatch_each
dispatch_rows send updates now event [] = refl
dispatch_rows send updates now event (r ∷ rs) =
    length-append (dispatch_rule (send r.id) updates now event r).rows _
    ∙ ground (
      arith,
      dispatch_rule_rows (send r.id) updates now event r,
      dispatch_rows send updates now event rs,
    )

abbrev pub delivers : Dispatched → Bool
delivers d = any (has_status is_delivered) d.rows

settle-delivers :
    (now : ℕ) (r : NotificationRule) (event : PlatformEvent) (x : ℕ × Option String)
    → delivers (settle true now r event x) ≡ true
    → (settle true now r event x).rule ≡ record r { last_triggered_at = some now }
unfolding settle record_history delivered_rule
settle-delivers now r event (n, none) h = refl
settle-delivers now r event (n, some e) h = absurd (ground arith)

deliver_with-delivers :
    (sender : Option String) (send : ℕ → Option String) (now : ℕ) (r : NotificationRule)
    (event : PlatformEvent)
    → delivers (deliver_with sender send true now r event) ≡ true
    → (deliver_with sender send true now r event).rule ≡ record r { last_triggered_at = some now }
unfolding deliver_with record_history
deliver_with-delivers none send now r event h = settle-delivers now r event _ h
deliver_with-delivers (some e) send now r event h = absurd (ground arith)

deliver_on-delivers :
    (channel : Option NotificationChannel) (send : ℕ → Option String) (now : ℕ)
    (r : NotificationRule) (event : PlatformEvent)
    → delivers (deliver_on channel send true now r event) ≡ true
    → (deliver_on channel send true now r event).rule ≡ record r { last_triggered_at = some now }
unfolding deliver_on
deliver_on-delivers none send now r event h = absurd (ground arith)
deliver_on-delivers (some channel) send now r event h =
    ground (arith, deliver_with-delivers (new_sender channel.type) send now r event)

dispatch_rule-delivers :
    (send : ℕ → Option String) (now : ℕ) (event : PlatformEvent) (r : NotificationRule)
    → delivers (dispatch_rule send true now event r) ≡ true
    → (dispatch_rule send true now event r).rule ≡ record r { last_triggered_at = some now }
unfolding dispatch_rule record_history
dispatch_rule-delivers send now event r h =
    ground (arith, deliver_on-delivers r.channel send now r event)

throttled_silent :
    (send : ℕ → Option String) (updates : Bool) (now : ℕ) (event : PlatformEvent)
    (r : NotificationRule)
    → is_throttled r now ≡ true
    → (delivers (dispatch_rule send updates now event r) ≡ false)
      × ((dispatch_rule send updates now event r).sends ≡ 0)
unfolding dispatch_rule record_history
throttled_silent send updates now event r h = (ground arith, ground arith)

fresh_delivers :
    (send : ℕ → Option String) (now : ℕ) (event : PlatformEvent) (r : NotificationRule)
    (channel : NotificationChannel)
    → is_throttled r now ≡ false
    → matches r event ≡ true
    → r.channel ≡ some channel
    → channel.enabled ≡ true
    → new_sender channel.type ≡ none
    → send 1 ≡ none
    → delivers (dispatch_rule send true now event r) ≡ true
unfolding dispatch_rule deliver_on deliver_with settle send_from record_history
fresh_delivers send now event r channel calm match loaded usable typed sent =
    rw (match, calm, loaded, usable, typed, sent) refl

triggered_throttled :
    (r : NotificationRule) (now later n : ℕ)
    → r.throttle_seconds ≡ pos (suc n)
    → suc n * second < 9223372036854775808
    → later < now + suc n * second
    → is_throttled (record r { last_triggered_at = some now }) later ≡ true
unfolding is_throttled throttled_since
triggered_throttled r now later n limit fits soon =
    let small : suc n * second % 18446744073709551616 ≡ suc n * second = omega arith in
    rw (limit, small) (rw (lt→ltb _ _ fits) (lt→ltb later _ soon))

-- A rule that has delivered a notification, with the write of its time succeeding, and whose
-- throttle time fits into 64 bits of nanoseconds, delivers none in a dispatch that loads it after that
-- write and comes to it before its throttle time is over, whatever the event.
pub dispatch_rule-throttled :
    (send again : ℕ → Option String) (now later : ℕ) (event next : PlatformEvent)
    (r : NotificationRule) (n : ℕ) (updates : Bool)
    → r.throttle_seconds ≡ pos (suc n)
    → suc n * second < 9223372036854775808
    → delivers (dispatch_rule send true now event r) ≡ true
    → later < now + suc n * second
    → let after =
        dispatch_rule again updates later next (dispatch_rule send true now event r).rule in
      (delivers after ≡ false) × (after.sends ≡ 0)
dispatch_rule-throttled send again now later event next r n updates limit fits first soon =
    throttled_silent again updates later next _ (
      ap (λ rule. is_throttled rule later) (dispatch_rule-delivers send now event r first)
      ∙ triggered_throttled r now later n limit fits soon)

-- A dispatch that has loaded the rule before that write delivers again, within the throttle time, when
-- the rule was not throttled as it was loaded, both events match it, its channel is usable and has
-- a sender, and the first sends succeed.
dispatch_rule_overlaps :
    (send again : ℕ → Option String) (now later : ℕ) (event next : PlatformEvent)
    (r : NotificationRule) (channel : NotificationChannel)
    → is_throttled r now ≡ false
    → is_throttled r later ≡ false
    → (matches r event && matches r next) ≡ true
    → r.channel ≡ some channel
    → channel.enabled ≡ true
    → new_sender channel.type ≡ none
    → send 1 ≡ none
    → again 1 ≡ none
    → (delivers (dispatch_rule send true now event r) ≡ true)
      × (delivers (dispatch_rule again true later next r) ≡ true)
dispatch_rule_overlaps send again now later event next r channel calm calm' both loaded usable typed
      sent sent' =
    (
      fresh_delivers send now event r channel calm (ground (arith, both)) loaded usable typed sent,
      fresh_delivers again later next r channel calm' (ground (arith, both)) loaded usable typed
          sent',
    )
