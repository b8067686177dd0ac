-- ===== src/EventBus/Subscriptions.antt =====
-- Subscriptions do not disturb each other.
use vm_orbit.Base.{
  ℕ, ◌≤◌, String, ◌≡◌, refl, sym, ap, ◌∙◌, inl, inr, true, ◌&&◌, Option, none, some, [], arith,
  if◌then◌else◌, Bool-cases, Option-cases, ◌==◌, nat_eq, string_eq,
}
use vm_orbit.Base.Map.{Map, lookup, lookup-insert, lookup-remove}
use vm_orbit.EventBus.{EventBus, new_event_bus, handlers_of, subscribe, unsubscribe, delete_handler}

module _ {H : Type 0} where
  -- The handler with a number among those of an event type.
  unfoldable handler : String → ℕ → EventBus H → Option H
  handler t id b = lookup id (handlers_of t b)

  -- Numbers that were not given out yet have no handler, of any event type.
  abbrev IsFresh : EventBus H → Type 0
  IsFresh b = (t : String) (id : ℕ) → b.next_id ≤ id → handler t id b ≡ none

  new_event_bus-IsFresh : IsFresh new_event_bus
  unfolding handler new_event_bus handlers_of lookup
  new_event_bus-IsFresh t id later = refl

  handler-subscribe :
      (t u : String) (h : H) (b : EventBus H) (id : ℕ)
      → handler u id (subscribe t h b).0
        ≡ (if (t == u) && (b.next_id == id) then some h else handler u id b)
  unfolding handler subscribe handlers_of
  handler-subscribe t u h b id = elim (Bool-cases (t == u)) [
    | inl e ↦
        rw (lookup-insert, e, lookup-insert)
          (ap (λ x. if b.next_id == id then some h else lookup id (handlers_of x b))
            ((string_eq.same_iff t u).0 e))
    | inr e ↦ rw (lookup-insert, e) refl
  ]

  lookup_nil : (id : ℕ) (m : Map ℕ H) → m ≡ [] → lookup id m ≡ none
  unfolding lookup
  lookup_nil id m e = rw e refl

  same_handlers :
      (t u : String) (b : EventBus H) → (t == u) ≡ true → lookup u b.handlers ≡ lookup t b.handlers
  same_handlers t u b e = ap (λ x. lookup x b.handlers) (sym ((string_eq.same_iff t u).0 e))

  handler-unsubscribe :
      (t u : String) (b : EventBus H) (id other : ℕ)
      → handler u other (unsubscribe t id b)
        ≡ (if (t == u) && (id == other) then none else handler u other b)
  unfolding handler unsubscribe delete_handler handlers_of
  handler-unsubscribe t u b id other = elim (Option-cases (lookup t b.handlers)) [
    | inl gone ↦ elim (Bool-cases (t == u)) [
      | inl e ↦ rw (gone, e, same_handlers t u b e ∙ gone, lookup_nil other [] refl) (ground arith)
      | inr e ↦ rw (gone, e) refl
    ]
    | inr (hs, found) ↦ elim (Bool-cases (t == u)) [
      | inl e ↦ rw (found, lookup-insert, e, lookup-remove, same_handlers t u b e ∙ found) refl
      | inr e ↦ rw (found, lookup-insert, e) refl
    ]
  ]

  next_id-unsubscribe :
      (t : String) (id : ℕ) (b : EventBus H) → (unsubscribe t id b).next_id ≡ b.next_id
  unfolding unsubscribe delete_handler
  next_id-unsubscribe t id b = elim (Option-cases (lookup t b.handlers)) [
    | inl gone ↦ rw gone refl
    | inr (hs, found) ↦ rw found refl
  ]

  subscribe-IsFresh :
      (t : String) (h : H) (b : EventBus H) → IsFresh b → IsFresh (subscribe t h b).0
  unfolding subscribe
  subscribe-IsFresh t h b fresh u id later =
      handler-subscribe t u h b id ∙ ground (arith, fresh u id (ground arith))

  unsubscribe-IsFresh :
      (t : String) (id : ℕ) (b : EventBus H) → IsFresh b → IsFresh (unsubscribe t id b)
  unsubscribe-IsFresh t id b fresh u other later =
      handler-unsubscribe t u b id other
      ∙ ground (arith, fresh u other (ground (arith, next_id-unsubscribe t id b)))

  back :
      (t u : String) (h : H) (b : EventBus H) (id : ℕ)
      → IsFresh b
      → (if (t == u) && (b.next_id == id) then none else handler u id (subscribe t h b).0)
        ≡ handler u id b
  back t u h b id fresh = ground (
    arith,
    handler-subscribe t u h b id,
    fresh u b.next_id (ground arith),
    nat_eq.same_iff b.next_id id,
  )

  -- On a bus whose coming numbers are free, subscribing leaves all other handlers where they are, and
  -- calling the function that it returns brings every handler back to what it was before.
  unsubscribe-subscribe :
      (t u : String) (h : H) (b : EventBus H) (id : ℕ)
      → IsFresh b
      → (handler u id (subscribe t h b).0
          ≡ (if (t == u) && (b.next_id == id) then some h else handler u id b))
        × (handler u id (unsubscribe t (subscribe t h b).1 (subscribe t h b).0) ≡ handler u id b)
  unfolding subscribe
  unsubscribe-subscribe t u h b id fresh = (
    handler-subscribe t u h b id,
    handler-unsubscribe t u (subscribe t h b).0 (subscribe t h b).1 id ∙ back t u h b id fresh,
  )
