-- ===== src/Loops.antt =====
-- The starts and stops of the loops in libs/bulk-action/src: `start`, `stop`, `isRunning` and `runLoop` of
-- backpressure/DispatcherService.ts and worker-pool/FetcherService.ts, each loop with the abort signal of
-- its own start, and `start` and `stop` of watcher/WatcherService.ts and reliable-queue/OrphanRecoveryService.ts,
-- each timer with its handle. A loop ends at the next test of its signal once that is aborted.
use nestjs_playground.Prelude.{
  ℕ, Bool, true, false, if◌then◌else◌, List, [], ◌∷◌, keep, length, ◌≡◌, refl, subst, inl, inr,
  Bool-cases,
}

-- For each start, newest first, whether its loop may go on; and whether the service holds the controller
-- of the newest.
pub record Loop : Type 0 where
  pub signals : List Bool
  pub controlled : Bool

abbrev pub new_loop : Loop
new_loop = record { signals = []; controlled = false }

unfoldable pub start_loop : Loop → Loop
start_loop l = if l.controlled then l else record { signals = true ∷ l.signals; controlled = true }

abbrev abort_newest : List Bool → List Bool
abort_newest [] = []
abort_newest (s ∷ rest) = false ∷ rest

-- `this.abortController?.abort()`, or `clearInterval`.
unfoldable pub stop_loop : Loop → Loop
stop_loop l =
    if l.controlled then record { signals = abort_newest l.signals; controlled = false } else l

unfoldable pub is_loop_running : Loop → Bool
is_loop_running l = l.controlled

pub data Control : Type 0 where
  starts stops : Control

abbrev pub control : Control → Loop → Loop
control starts l = start_loop l
control stops l = stop_loop l

-- Calls in turn, oldest first.
abbrev pub control_all : List Control → Loop → Loop
control_all [] l = l
control_all (c ∷ cs) l = control_all cs (control c l)

-- The loops that may go on.
abbrev pub live : Loop → ℕ
live l = length (keep (λ s. s) l.signals)

-- The newest loop may go on exactly when it is controlled, and no other may.
abbrev Sound : List Bool → Bool → Type 0
Sound [] b = b ≡ false
Sound (s ∷ rest) b = (s ≡ b) × (keep (λ t. t) rest ≡ [])

dead : (ss : List Bool) → Sound ss false → keep (λ s. s) ss ≡ []
dead [] h = refl
dead (s ∷ rest) (e, h) = rw e h

aborted : (ss : List Bool) → Sound ss true → Sound (abort_newest ss) false
aborted [] h = refl
aborted (s ∷ rest) (e, h) = (refl, h)

Sound-start :
    (l : Loop)
    → Sound l.signals l.controlled
    → Sound (start_loop l).signals (start_loop l).controlled
unfolding start_loop
Sound-start l h = elim (Bool-cases l.controlled) [
  | inl e ↦ rw (e, start_loop) (subst (Sound l.signals) e h)
  | inr e ↦ rw (e, start_loop) (refl, dead l.signals (subst (Sound l.signals) e h))
]

Sound-stop :
    (l : Loop) → Sound l.signals l.controlled → Sound (stop_loop l).signals (stop_loop l).controlled
unfolding stop_loop
Sound-stop l h = elim (Bool-cases l.controlled) [
  | inl e ↦ rw (e, stop_loop) (aborted l.signals (subst (Sound l.signals) e h))
  | inr e ↦ rw (e, stop_loop) (subst (Sound l.signals) e h)
]

Sound-control_all :
    (cs : List Control) (l : Loop)
    → Sound l.signals l.controlled
    → Sound (control_all cs l).signals (control_all cs l).controlled
Sound-control_all [] l h = h
Sound-control_all (starts ∷ cs) l h = Sound-control_all cs (start_loop l) (Sound-start l h)
Sound-control_all (stops ∷ cs) l h = Sound-control_all cs (stop_loop l) (Sound-stop l h)

live_count :
    (ss : List Bool) (b : Bool) → Sound ss b → length (keep (λ s. s) ss) ≡ (if b then 1 else 0)
live_count [] b h = rw h
live_count (s ∷ rest) true (e, h) = rw (e, h)
live_count (s ∷ rest) false (e, h) = rw (e, h)

-- After any calls of `start` and `stop`, in any order, the loops that may go on are one if the service says that
-- it is running and none if not: a second `start` begins no second loop, and a loop that was stopped
-- is not revived by a later start.
pub control_all-live :
    (cs : List Control)
    → let l = control_all cs new_loop in live l ≡ (if is_loop_running l then 1 else 0)
unfolding is_loop_running
control_all-live cs =
    let l = control_all cs new_loop in
    live_count l.signals l.controlled (Sound-control_all cs new_loop refl)
