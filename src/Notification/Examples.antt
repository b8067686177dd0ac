-- ===== src/Notification/Examples.antt =====
-- A rule with a throttle, and the dispatch of two events.
use vm_orbit.Base.{member}
use vm_orbit.Base.{
  ℕ, ◌*◌, String, ◌≡◌, refl, true, false, Option, none, some, [], ◌∷◌, arith, nat_eq, string_eq,
  pos,
}
use vm_orbit.Notification.{
  NotificationRule, PlatformEvent, slack, delivered, matches, passes, passes_provider, is_throttled,
  throttled_since, second, dispatch_rule, deliver_on, deliver_with, new_sender, send_from, settle,
  record_history,
}
use vm_orbit.Notification.Rules.{dispatch_rule-throttled, delivers}

abbrev rule : NotificationRule
rule = record {
  id = 1;
  enabled = true;
  channel_id = 2;
  channel = some (record { type = slack; enabled = true });
  event_types = [];
  severities = [];
  providers = "vmware" ∷ [];
  throttle_seconds = pos 60;
  last_triggered_at = none;
}

abbrev event : PlatformEvent
event = record { id = 3; event_type = "vm.deleted"; severity = "info"; provider = "vmware" }

abbrev works : ℕ → Option String
works n = none

dispatch_rule-throttled_example :
    (delivers (
        dispatch_rule works true
          (30 * second)
          event
          (dispatch_rule works true (1 * second) event rule).rule)
      ≡ false)
    × ((dispatch_rule works true
          (30 * second)
          event
          (dispatch_rule works true (1 * second) event rule).rule).sends
        ≡ 0)
unfolding dispatch_rule matches passes passes_provider member is_throttled throttled_since
    deliver_on deliver_with new_sender settle send_from record_history
dispatch_rule-throttled_example =
    dispatch_rule-throttled works works (1 * second) (30 * second) event event rule 59 true refl
      (omega arith) refl (ground arith)

-- The first send succeeds, and the row says that three were made.
three_attempts :
    ((dispatch_rule works true 0 event rule).sends ≡ 1)
    × ((dispatch_rule works true 0 event rule).rows
        ≡ record {
          rule_id = 1;
          channel_id = 2;
          event_id = 3;
          status = delivered;
          attempt_count = 3;
          delivered_at = some 0;
        }
          ∷ [])
unfolding dispatch_rule matches passes passes_provider member is_throttled throttled_since
    deliver_on deliver_with new_sender settle send_from record_history
three_attempts = (refl, refl)

-- An event without a provider passes a filter on providers.
no_provider : matches rule (record event { provider = "" }) ≡ true
unfolding matches passes passes_provider
no_provider = refl
