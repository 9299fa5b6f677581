-- ===== src/NodeState/Lifecycle.antt =====
-- What holds along every run of the life cycle.
use deadmkt_node.Prelude.{
  ℕ, ◌≡◌, refl, subst, sym, ◌∙◌, Bool, true, false, not, Option, none, some, List, [], ◌∷◌, arith,
  any,
}
use deadmkt_node.NodeState.{
  NodeState, NodeEvent, StateError, Result, NodeStateMachine, new, dispatch, transition, can_commit,
  can_gossip,
}

-- A run of events, the refused ones included.
unfoldable pub run : NodeStateMachine → List NodeEvent → NodeStateMachine
run m [] = m
run m (e ∷ es) = run (transition m e).0 es

-- The states that a pause can interrupt.
abbrev pub resumable : NodeState → Bool
resumable NodeState.trading = true
resumable NodeState.observing = true
resumable _ = false

-- A paused machine remembers a state to go back to, and no machine remembers another kind.
abbrev pub remembers : NodeState → Option NodeState → Bool
remembers NodeState.paused none = false
remembers _ none = true
remembers _ (some p) = resumable p

abbrev pub IsValid : NodeStateMachine → Type 0
IsValid m = remembers m.state m.previous_state ≡ true

dispatch-IsValid :
    (s : NodeState) (e : NodeEvent) (m : NodeStateMachine)
    → m.state ≡ s
    → IsValid m
    → IsValid (dispatch s e m).0
unfolding dispatch
dispatch-IsValid NodeState.setup e m h v = ground arith
dispatch-IsValid _ e m h v = ground arith

-- Whatever events come in, a paused machine keeps a state to go back to, which is trading or
-- observing.
pub run-IsValid : (m : NodeStateMachine) (es : List NodeEvent) → IsValid m → IsValid (run m es)
unfolding run transition
run-IsValid m [] v = v
run-IsValid m (e ∷ es) v =
    run-IsValid (dispatch m.state e m).0 es (dispatch-IsValid m.state e m refl v)

dispatch_refused :
    (s : NodeState) (e : NodeEvent) (m m' : NodeStateMachine) (x : StateError)
    → m.state ≡ s
    → dispatch s e m ≡ (m', Result.err x)
    → (m' ≡ m) × (x ≡ StateError.invalid_transition m.state e)
unfolding dispatch
dispatch_refused NodeState.setup e m m' x h r = ground arith
dispatch_refused _ e m m' x h r = ground arith

-- A refused event changes nothing, and the error names the state and the event.
pub transition_refused :
    (m m' : NodeStateMachine) (e : NodeEvent) (x : StateError)
    → transition m e ≡ (m', Result.err x)
    → (m' ≡ m) × (x ≡ StateError.invalid_transition m.state e)
unfolding transition
transition_refused m m' e x r = dispatch_refused m.state e m m' x refl r

dispatch_stopped :
    (e : NodeEvent) (m : NodeStateMachine)
    → m.state ≡ NodeState.shutdown
    → (dispatch NodeState.shutdown e m).0.state ≡ NodeState.shutdown
unfolding dispatch
dispatch_stopped e m h = ground arith

-- A shutdown is final: after it no event makes the node commit or gossip again.
pub shutdown_final :
    (m : NodeStateMachine) (es : List NodeEvent)
    → m.state ≡ NodeState.shutdown
    → ((run m es).state ≡ NodeState.shutdown)
      × (can_commit (run m es) ≡ false)
      × (can_gossip (run m es) ≡ false)
unfolding run transition can_commit can_gossip
shutdown_final m [] h = ground arith
shutdown_final m (e ∷ es) h =
    let first : (dispatch m.state e m).0.state ≡ NodeState.shutdown =
      subst (λ s. (dispatch s e m).0.state ≡ NodeState.shutdown) (sym h) (dispatch_stopped e m h) in
    shutdown_final (dispatch m.state e m).0 es first

-- The states before a strategy has ever connected.
abbrev pub early : NodeState → Bool
early NodeState.setup = true
early NodeState.connected = true
early NodeState.shutdown = true
early _ = false

abbrev pub connects : NodeEvent → Bool
connects NodeEvent.strategy_connected = true
connects _ = false

dispatch-early :
    (s : NodeState) (e : NodeEvent) (m : NodeStateMachine)
    → m.state ≡ s
    → early s ≡ true
    → connects e ≡ false
    → early (dispatch s e m).0.state ≡ true
unfolding dispatch
dispatch-early NodeState.setup e m h v c = ground arith
dispatch-early _ e m h v c = ground arith

run-early :
    (m : NodeStateMachine) (es : List NodeEvent)
    → early m.state ≡ true
    → any connects es ≡ false
    → early (run m es).state ≡ true
unfolding run transition
run-early m [] v c = v
run-early m (e ∷ es) v c =
    run-early (dispatch m.state e m).0 es (dispatch-early m.state e m refl v (ground arith))
      (ground arith)

-- Without a strategy the node never commits orders, whatever else happens.
pub no_strategy_no_commit :
    (es : List NodeEvent) → any connects es ≡ false → can_commit (run new es) ≡ false
unfolding can_commit
no_strategy_no_commit es c = ground (arith, run-early new es refl c)

-- The events that a paused machine lives through without leaving the pause.
abbrev pub idle : NodeEvent → Bool
idle NodeEvent.resume_detected = false
idle NodeEvent.shutdown_requested = false
idle _ = true

dispatch-idle :
    (e : NodeEvent) (m : NodeStateMachine)
    → m.state ≡ NodeState.paused
    → idle e ≡ true
    → ((dispatch NodeState.paused e m).0.state ≡ NodeState.paused)
      × ((dispatch NodeState.paused e m).0.previous_state ≡ m.previous_state)
unfolding dispatch
dispatch-idle e m h i = ground arith

run-idle :
    (m : NodeStateMachine) (es : List NodeEvent)
    → m.state ≡ NodeState.paused
    → any (λ e. not (idle e)) es ≡ false
    → ((run m es).state ≡ NodeState.paused) × ((run m es).previous_state ≡ m.previous_state)
unfolding run transition
run-idle m [] h i = (h, refl)
run-idle m (e ∷ es) h i =
    let (still, same) = first in
    let (paused, before) = run-idle (dispatch m.state e m).0 es still (ground arith) in
    (paused, before ∙ same)
  where
    first :
        ((dispatch m.state e m).0.state ≡ NodeState.paused)
        × ((dispatch m.state e m).0.previous_state ≡ m.previous_state)
    first =
        subst
          (λ s.
            ((dispatch s e m).0.state ≡ NodeState.paused)
            × ((dispatch s e m).0.previous_state ≡ m.previous_state))
          (sym h) (dispatch-idle e m h (ground arith))

dispatch_pause :
    (s : NodeState) (b : ℕ) (m : NodeStateMachine)
    → m.state ≡ s
    → resumable s ≡ true
    → ((dispatch s (NodeEvent.pause_detected b) m).0.state ≡ NodeState.paused)
      × ((dispatch s (NodeEvent.pause_detected b) m).0.previous_state ≡ some s)
unfolding dispatch
dispatch_pause s b m h r = ground arith

transition_resume :
    (m : NodeStateMachine) (s : NodeState)
    → m.state ≡ NodeState.paused
    → m.previous_state ≡ some s
    → (transition m NodeEvent.resume_detected).1 ≡ Result.ok s
unfolding transition dispatch
transition_resume m s h p = ground arith

-- A pause and the resume that ends it bring the node back to the state in which it was trading or
-- observing, whatever events but a shutdown come in between.
pub pause_resume :
    (m : NodeStateMachine) (after_batch : ℕ) (es : List NodeEvent)
    → resumable m.state ≡ true
    → any (λ e. not (idle e)) es ≡ false
    → (transition
        (run (transition m (NodeEvent.pause_detected after_batch)).0 es)
        NodeEvent.resume_detected).1
      ≡ Result.ok m.state
unfolding transition
pause_resume m after_batch es r i =
    let (paused, saved) = dispatch_pause m.state after_batch m refl r in
    let (still, kept) =
      run-idle (dispatch m.state (NodeEvent.pause_detected after_batch) m).0 es paused i in
    transition_resume _ m.state still (kept ∙ saved)
