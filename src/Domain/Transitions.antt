-- ===== src/Domain/Transitions.antt =====
-- The graph of request states that `CanTransition` draws.
use vectorcore_gmlc.Base.{◌≡◌, true, false, arith, ◌↔◌, refl}
use vectorcore_gmlc.Domain.{State, terminal, can_transition}

-- `from ⟶ to`, as the comments of the service tell the life of a request.
infix 40 ◌⟶◌
pub data ◌⟶◌ : State → State → Type 0 where
  claim : State.queued ⟶ State.resolving
  locate : State.resolving ⟶ State.locating
  complete : State.locating ⟶ State.completed
  retry_resolving : State.resolving ⟶ State.queued
  retry_locating : State.locating ⟶ State.queued
  give_up :
      {s t : State} → terminal s ≡ false → terminal t ≡ true → (t ≡ State.completed → ⊥) → s ⟶ t

pub can_transition-⟶ : (s t : State) → can_transition s t ≡ true → s ⟶ t
unfolding can_transition
can_transition-⟶ s t h =
    grind (arith, claim, locate, complete, retry_resolving, retry_locating, give_up)

pub ⟶-can_transition : {s t : State} → s ⟶ t → can_transition s t ≡ true
unfolding can_transition
⟶-can_transition claim = refl
⟶-can_transition locate = refl
⟶-can_transition complete = refl
⟶-can_transition retry_resolving = refl
⟶-can_transition retry_locating = refl
⟶-can_transition (give_up {s = s} {t = t} h k n) = ground arith

terminal_iff : (s : State) → (terminal s ≡ true) ↔ ((t : State) → can_transition s t ≡ false)
unfolding can_transition
terminal_iff State.queued = (λ h. cc, λ h. cc (h State.resolving))
terminal_iff State.resolving = (λ h. cc, λ h. cc (h State.locating))
terminal_iff State.locating = (λ h. cc, λ h. cc (h State.completed))
terminal_iff s = (λ h t. ground arith, λ h. refl)

-- `CanTransition` allows exactly the edges of the graph, and the states that it lets nothing leave are
-- exactly those that `Terminal` names.
pub can_transition_iff :
    (s : State)
    → ((t : State) → (can_transition s t ≡ true) ↔ (s ⟶ t))
      × ((terminal s ≡ true) ↔ ((t : State) → can_transition s t ≡ false))
can_transition_iff s = (λ t. (can_transition-⟶ s t, ⟶-can_transition), terminal_iff s)
