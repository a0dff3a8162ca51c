-- ===== src/Scheduler/Backpressure.antt =====
-- crates/scheduler/src/backpressure.rs: the hysteresis of SlowDown and Resume. The unbounded channel
-- is the list of the signals sent, oldest first.
use mathlib.Core.List.{append-nil}
use dual_optimistic_l.Base.{
  ℕ, ◌/◌, ◌≡◌, refl, Bool, true, false, not, ◌&&◌, List, [], ◌∷◌, ◌++◌, ltb, if◌then◌else◌, arith,
}
use dual_optimistic_l.Shared.{BackpressureSignal, slow_down, resume}

pub record BackpressureController : Type 0 where
  pub threshold : ℕ
  pub paused : Bool
  pub signals : List BackpressureSignal

unfoldable pub new : ℕ → BackpressureController
new threshold = record { threshold = threshold; paused = false; signals = [] }

unfoldable pub check : BackpressureController → ℕ → BackpressureController
check c depth =
    if ltb c.threshold depth && not c.paused
    then record c { paused = true; signals = c.signals ++ slow_down ∷ [] }
    else if ltb depth (c.threshold / 2) && c.paused
    then record c { paused = false; signals = c.signals ++ resume ∷ [] }
    else c

unfoldable pub update : BackpressureController → BackpressureSignal → BackpressureController
update c slow_down = record c { paused = true }
update c resume = record c { paused = false }

-- The controller after a list of depths.
pub checks : BackpressureController → List ℕ → BackpressureController
checks c [] = c
checks c (d ∷ ds) = checks (check c d) ds

-- The signals alternate, beginning with SlowDown, and the controller is paused exactly if the last
-- one was a SlowDown.
abbrev pub Alternates : Bool → List BackpressureSignal → Bool → Type 0
Alternates start [] end = start ≡ end
Alternates start (slow_down ∷ ss) end = (start ≡ false) × Alternates true ss end
Alternates start (resume ∷ ss) end = (start ≡ true) × Alternates false ss end

Alternates-append :
    (start mid : Bool) (ss : List BackpressureSignal) (s : BackpressureSignal) (end : Bool)
    → Alternates start ss mid
    → Alternates mid (s ∷ []) end
    → Alternates start (ss ++ s ∷ []) end
Alternates-append start mid [] s end h k = ground arith
Alternates-append start mid (slow_down ∷ ss) s end h k =
    (h.0, Alternates-append true mid ss s end h.1 k)
Alternates-append start mid (resume ∷ ss) s end h k =
    (h.0, Alternates-append false mid ss s end h.1 k)

check-Alternates :
    (c : BackpressureController) (d : ℕ)
    → Alternates false c.signals c.paused
    → Alternates false (check c d).signals (check c d).paused
unfolding check
check-Alternates c d h = ground (
  arith,
  Alternates-append false false c.signals slow_down true,
  Alternates-append false true c.signals resume false,
)

checks-Alternates :
    (c : BackpressureController) (ds : List ℕ)
    → Alternates false c.signals c.paused
    → Alternates false (checks c ds).signals (checks c ds).paused
unfolding checks
checks-Alternates c [] h = h
checks-Alternates c (d ∷ ds) h = checks-Alternates (check c d) ds (check-Alternates c d h)

-- Whatever depths a new controller is shown, it sends SlowDown and Resume in turn, SlowDown first,
-- and it is paused exactly if the last signal was a SlowDown.
pub checks_alternate :
    (threshold : ℕ) (ds : List ℕ)
    → let c = checks (new threshold) ds in Alternates false c.signals c.paused
unfolding new
checks_alternate threshold ds = checks-Alternates (new threshold) ds refl

-- The signal for a change of the paused flag.
abbrev pub edge : Bool → Bool → List BackpressureSignal
edge false true = slow_down ∷ []
edge true false = resume ∷ []
edge _ _ = []

-- After a check the controller is paused above the threshold, running below half of it, and as it
-- was in the band between; a signal is sent exactly if that changed; and a second check at the same
-- depth does nothing more.
pub check_hysteresis :
    (c : BackpressureController) (d : ℕ)
    → let c' = check c d in
      (c'.paused
        ≡ (if ltb c.threshold d then true else if ltb d (c.threshold / 2) then false else c.paused))
      × (c'.signals ≡ c.signals ++ edge c.paused c'.paused)
      × (check c' d ≡ c')
unfolding check
check_hysteresis c d = (ground arith, ground (arith, append-nil c.signals), ground arith)
