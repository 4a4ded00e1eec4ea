-- ===== src/Match/LocalMatch/Extends.antt =====
-- Turns that extend a match of src/arena/match/local_match.py: chance draining, and going on from a
-- recorded turn.
use mathlib.Core.Path.{subst}
use agents_arena.Prelude.{
  ℕ, zero, suc, ◌≡◌, ◌∙◌, Bool-cases, inl, inr, true, Option, none, some, List, [], ◌∷◌, ◌++◌,
  append_assoc, append-nil, arith,
}
use agents_arena.Core.Errors.{ok, >>=-eq-ok}
use agents_arena.Core.Chance.{ChanceRng}
use agents_arena.Core.Engine.{GameTypes, GameDefinition}
use agents_arena.Core.Nodes.{is_chance_node, sample_chance}
use agents_arena.Match.LocalMatch.{
  max_consecutive_chance_steps, TurnRecord, LocalMatch, resolve_one, drain_loop, drain_chance_nodes,
  advance, apply_match_chance, replay_turn, replay,
}

-- The match with its generator taken away: what a replay holds.
abbrev pub silent : {T : GameTypes} → LocalMatch T → LocalMatch T
silent m = record m { rng = none }

-- `m` moved to a state and a list of turns, without a generator.
abbrev pub moved : {T : GameTypes} → LocalMatch T → T.State → List (TurnRecord T) → LocalMatch T
moved m state turns = record m { state = state; turns = turns; rng = none }

module _ {T : GameTypes} (definition : GameDefinition T) where
  open definition use {rules_engine as rules}

  -- `m'` has the turns of `m` and more, and replaying those more leads from `m` to `m'`.
  pub record Extends (m m' : LocalMatch T) : Type 0 where
    pub more : List (TurnRecord T)
    pub turns : m'.turns ≡ m.turns ++ more
    pub replays : replay definition (silent m) more ≡ ok (silent m')

  pub replay-append :
      (m : LocalMatch T) (ts us : List (TurnRecord T)) {m' : LocalMatch T}
      → replay definition m ts ≡ ok m'
      → replay definition m (ts ++ us) ≡ replay definition m' us
  unfolding replay
  replay-append m [] us h = ground arith
  replay-append m (t ∷ ts) us h =
      let (m₁, first, rest) =
        >>=-eq-ok (replay_turn definition m t.kind t.seat t.action t.outcome t.actions)
          (λ m₁. replay definition m₁ ts) h in
      rw first (replay-append m₁ ts us rest)

  -- A resolved chance node is replayed by the recorded outcome.
  pub replay_turn-chance :
      (m : LocalMatch T) (outcome : T.Outcome) (state : T.State) (turn : TurnRecord T)
      → is_chance_node rules m.rules_engine m.state ≡ true
      → resolve_one definition m.rules_engine m.config m.state outcome ≡ ok (state, turn)
      → replay_turn definition (silent m) turn.kind turn.seat turn.action turn.outcome turn.actions
        ≡ ok (moved m state (m.turns ++ turn ∷ []))
  unfolding replay_turn apply_match_chance resolve_one advance drain_chance_nodes
  replay_turn-chance m outcome state turn c r = ground arith

  -- One more turn in front: it replays to where the rest begins.
  Extends-cons :
      (m : LocalMatch T) (state : T.State) (turn : TurnRecord T) (rng : Option ChanceRng)
      {m' : LocalMatch T}
      → replay_turn definition (silent m) turn.kind turn.seat turn.action turn.outcome turn.actions
        ≡ ok (moved m state (m.turns ++ turn ∷ []))
      → Extends (record m { state = state; turns = m.turns ++ turn ∷ []; rng = rng }) m'
      → Extends m m'
  unfolding replay
  Extends-cons m state turn rng first rest = record {
    more = turn ∷ rest.more;
    turns = rest.turns ∙ append_assoc m.turns (turn ∷ []) rest.more;
    replays = rw first rest.replays;
  }

  -- Draining from a state appends turns that replay from that state to the drained one.
  drain_loop-replays :
      (left : ℕ) (m : LocalMatch T) (rng : ChanceRng) (state : T.State)
      (turns : List (TurnRecord T)) (rng' : Option ChanceRng)
      → drain_loop definition left m.rules_engine m.config m.state m.turns rng
        ≡ ok (state, turns, rng')
      → Extends m (record m { state = state; turns = turns; rng = rng' })
  unfolding drain_loop replay
  drain_loop-replays zero m rng state turns rng' h = record {
    more = [];
    turns = ground (arith, append-nil m.turns);
    replays = ground arith;
  }
  drain_loop-replays (suc left) m rng state turns rng' h =
      elim (Bool-cases (is_chance_node rules m.rules_engine m.state)) [
        | inl pending ↦
            let ((outcome, rng₁), sampled, next) =
              >>=-eq-ok (sample_chance rules m.rules_engine m.state rng) _ (rw pending at h) in
            let ((state₁, turn), resolved, rest) =
              >>=-eq-ok (resolve_one definition m.rules_engine m.config m.state outcome) _ next in
            Extends-cons m state₁ turn (some rng₁)
              (replay_turn-chance m outcome state₁ turn pending resolved)
              (drain_loop-replays left
                (record m { state = state₁; turns = m.turns ++ turn ∷ []; rng = some rng₁ }) rng₁
                state turns rng' rest)
        | inr settled ↦ record {
          more = [];
          turns = ground (arith, append-nil m.turns);
          replays = ground arith;
        }
      ]

  pub drain-replays :
      (m : LocalMatch T) (rng : Option ChanceRng) (state : T.State) (turns : List (TurnRecord T))
      (rng' : Option ChanceRng)
      → drain_chance_nodes definition m.rules_engine m.config m.state m.turns rng
        ≡ ok (state, turns, rng')
      → Extends m (record m { state = state; turns = turns; rng = rng' })
  unfolding drain_chance_nodes replay
  drain-replays m none state turns rng' h = record {
    more = [];
    turns = ground (arith, append-nil m.turns);
    replays = ground arith;
  }
  drain-replays m (some rng) state turns rng' h =
      drain_loop-replays max_consecutive_chance_steps m rng state turns rng' h

  -- A step that goes on by `advance` from a recorded turn extends the match, if the turn replays.
  pub advance-Extends :
      (m m' : LocalMatch T) (state : T.State) (turn : TurnRecord T)
      → replay_turn definition (silent m) turn.kind turn.seat turn.action turn.outcome turn.actions
        ≡ ok (moved m state (m.turns ++ turn ∷ []))
      → advance definition m state turn ≡ ok m'
      → Extends m m'
  unfolding advance
  advance-Extends m m' state turn first h =
      let ((state', turns', rng'), drained, made) =
        >>=-eq-ok
          (drain_chance_nodes definition m.rules_engine m.config state (m.turns ++ turn ∷ []) m.rng)
          _ h in
      Extends-cons m state turn m.rng first (
        subst (Extends (record m { state = state; turns = m.turns ++ turn ∷ [] })) (cc made) (
          drain-replays (record m { state = state; turns = m.turns ++ turn ∷ [] }) m.rng state'
            turns' rng' drained))
