-- ===== src/Receiver/Connection/Dependencies.antt =====
-- start_after_dependencies and add_dependency of receiver_plugin, and the calls of its timer.
use eos_chronicle.Base.{
  ℕ, ◌≡◌, refl, sym, subst, Bool, true, false, ◌||◌, String, Option, some, List, [], ◌∷◌, ◌++◌,
  if◌then◌else◌, arith, Bool-cases, inl, inr,
}

-- A plugin and its name.
abbrev pub Dependency : Type 0
Dependency = ℕ × String

pub record Launch : Type 0 where
  pub dependent_plugins : List Dependency
  pub pause_timer : Option ℕ
  pub launched : Bool

unfoldable pub add_dependency : Dependency → Launch → Launch
add_dependency plug p = record p { dependent_plugins = p.dependent_plugins ++ plug ∷ [] }

-- The loop: started plugins at the front are dropped.
unfoldable pub still_waiting : (ℕ → Bool) → List Dependency → List Dependency
still_waiting started [] = []
still_waiting started ((plug, name) ∷ rest) =
    let more = still_waiting started rest in if started plug then more else (plug, name) ∷ rest

abbrev launch_or_wait : List Dependency → Launch → Launch
launch_or_wait [] p = record p { dependent_plugins = []; launched = true }
launch_or_wait (d ∷ ds) p = record p { dependent_plugins = d ∷ ds; pause_timer = some 50 }

-- `started` says which plugins have started by now.
unfoldable pub start_after_dependencies : (ℕ → Bool) → Launch → Launch
unfolding still_waiting
start_after_dependencies started p = launch_or_wait (still_waiting started p.dependent_plugins) p

-- One call after the other, until the receiver is launched.
unfoldable pub calls : List (ℕ → Bool) → Launch → Launch
calls [] p = p
calls (started ∷ rest) p =
    let q = calls rest (start_after_dependencies started p) in if p.launched then p else q

abbrev pub seen : ℕ → List (ℕ → Bool) → Bool
seen plug [] = false
seen plug (s ∷ ss) = s plug || seen plug ss

-- Each of the plugins was seen started in one of the calls.
abbrev pub AllSeen : List (ℕ → Bool) → List Dependency → Type 0
AllSeen observed [] = Unit
AllSeen observed ((plug, name) ∷ rest) = (seen plug observed ≡ true) × AllSeen observed rest

still_seen :
    (s : ℕ → Bool) (ss : List (ℕ → Bool)) (l : List Dependency) → AllSeen ss l → AllSeen (s ∷ ss) l
still_seen s ss [] h = tt
still_seen s ss ((plug, name) ∷ rest) h = (ground (arith, h.0), still_seen s ss rest h.1)

now_seen :
    (s : ℕ → Bool) (ss : List (ℕ → Bool)) (l : List Dependency)
    → AllSeen ss (still_waiting s l)
    → AllSeen (s ∷ ss) l
unfolding still_waiting
now_seen s ss [] h = tt
now_seen s ss ((plug, name) ∷ rest) h = elim (Bool-cases (s plug)) [
  | inl up ↦ (rw up refl, now_seen s ss rest (simp up at h))
  | inr down ↦ still_seen s ss ((plug, name) ∷ rest) (simp down at h)
]

-- A receiver that is launched has seen each of its dependencies started.
pub calls-AllSeen :
    (observed : List (ℕ → Bool)) (p : Launch)
    → p.launched ≡ false
    → (calls observed p).launched ≡ true
    → AllSeen observed p.dependent_plugins
unfolding calls start_after_dependencies
calls-AllSeen [] p idle launched = cc
calls-AllSeen (s ∷ ss) p idle launched =
    by_rest (still_waiting s p.dependent_plugins) refl (calls-AllSeen ss) (simp idle at launched)
  where
    by_rest :
        (l : List Dependency)
        → still_waiting s p.dependent_plugins ≡ l
        → ((q : Launch)
            → q.launched ≡ false
            → (calls ss q).launched ≡ true
            → AllSeen ss q.dependent_plugins)
        → (calls ss (launch_or_wait (still_waiting s p.dependent_plugins) p)).launched ≡ true
        → AllSeen (s ∷ ss) p.dependent_plugins
    by_rest [] e later h = now_seen s ss p.dependent_plugins (subst (AllSeen ss) (sym e) tt)
    by_rest (d ∷ ds) e later h = now_seen s ss p.dependent_plugins (
        subst (AllSeen ss) (sym e) (
          later (record p { dependent_plugins = d ∷ ds; pause_timer = some 50 }) idle
            (subst (λ l. (calls ss (launch_or_wait l p)).launched ≡ true) e h)))

-- Every plugin of the list has started.
abbrev pub AllUp : (ℕ → Bool) → List Dependency → Type 0
AllUp started [] = Unit
AllUp started ((plug, name) ∷ rest) = (started plug ≡ true) × AllUp started rest

none_waits : (s : ℕ → Bool) (l : List Dependency) → AllUp s l → still_waiting s l ≡ []
unfolding still_waiting
none_waits s [] h = refl
none_waits s ((plug, name) ∷ rest) h = rw h.0 (none_waits s rest h.1)

-- A call that finds every dependency started launches the receiver, and a call after which it is
-- not launched has armed the timer for the next.
pub start_after_dependencies_lem :
    (s : ℕ → Bool) (p : Launch)
    → p.launched ≡ false
    → let q = start_after_dependencies s p in
      (AllUp s p.dependent_plugins → q.launched ≡ true)
      × (q.launched ≡ false → q.pause_timer ≡ some 50)
unfolding start_after_dependencies
start_after_dependencies_lem s p idle = (
  λ up. rw (none_waits s p.dependent_plugins up) refl,
  armed (still_waiting s p.dependent_plugins),
)
  where
    armed :
        (l : List Dependency)
        → (launch_or_wait l p).launched ≡ false
        → (launch_or_wait l p).pause_timer ≡ some 50
    armed [] h = cc
    armed (d ∷ ds) h = refl
