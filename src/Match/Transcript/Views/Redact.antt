-- ===== src/Match/Transcript/Views/Redact.antt =====
-- Redacting transcripts, src/arena/match/transcript.py: the events that a viewer's transcript keeps,
-- and the view of a saved transcript against the view of the match itself.
use mathlib.Core.Path.{subst}
use agents_arena.Prelude.{
  ℕ, ◌≡◌, refl, sym, ap, inl, inr, Bool-cases, true, Option, none, some, List, [], ◌∷◌, map, arith,
  not, if◌then◌else◌,
}
use agents_arena.Core.Errors.{Result, ok, err, raise_if, value_error, ◌>>=◌, >>=-eq-ok}
use agents_arena.Core.Engine.{GameTypes, GameDefinition}
use agents_arena.Core.Events.{EventClass, is_public, event_payload_visible_to}
use agents_arena.Core.Events.Visible.{audience_visible}
use agents_arena.Core.Nodes.{validate_chance_support}
use agents_arena.Core.PublicView.{Viewer, check_viewer}
use agents_arena.Match.LocalMatch.{TurnRecord, LocalMatch, MatchCall, start_match, play}
use agents_arena.Match.LocalMatch.Extends.{silent}
use agents_arena.Match.Transcript.Payload.{
  named, TurnPayload, TranscriptPayload, LoadedMatchTranscript,
}
use agents_arena.Match.Transcript.Dump.{
  event_payload, dump_events, dump_turn, dump_turns, dump_match_transcript,
}
use agents_arena.Match.Transcript.Load.{check_model, redump, is_full, load_match_transcript}
use agents_arena.Match.Transcript.Validate.{
  Comparison, as_value_error, validate_loaded, replay_match_transcript,
}
use agents_arena.Match.Transcript.Trip.{Loads, redump-dump_events, dump_turn-Dumped}
use agents_arena.Match.Transcript.RoundTrip.{IsReflexive, replay-dump_match_transcript}
use agents_arena.Match.Transcript.Views.{
  view_of, redump_turn, redump_transcript, transcript_view_for, dump_redacted,
  filter_event_payloads, dump_match_transcript_for_viewer, redact_match_transcript,
}

module _ {T : GameTypes} (class : EventClass T) where
  -- The events that the game shows a viewer.
  abbrev pub visible_events : Viewer → List T.Event → List T.Event
  visible_events viewer [] = []
  visible_events viewer (event ∷ events) =
      let rest = visible_events viewer events in
      if class.visible_to event viewer then event ∷ rest else rest

  payload_visible :
      (viewer : Viewer) (event : T.Event)
      → check_viewer viewer ≡ ok tt
      → (is_public class event ≡ true → class.visible_to event viewer ≡ true)
      → event_payload_visible_to (event_payload class event) viewer ≡ class.visible_to event viewer
  unfolding event_payload_visible_to event_payload check_viewer
  payload_visible none event v public = unfold is_public in refl
  payload_visible (some seat) event v public = elim (Bool-cases (is_public class event)) [
    | inl all ↦ rw (all, public all) refl
    | inr private ↦ rw private (audience_visible class event seat (ground arith) private)
  ]

  -- A viewer's transcript keeps exactly the events that the game shows to the viewer, when the viewer
  -- is the public or one of the two seats, and what the game shows to the public it shows to the viewer.
  pub filter_event_payloads-dump_events :
      (viewer : Viewer) (events : List T.Event)
      → check_viewer viewer ≡ ok tt
      → ((event : T.Event) → is_public class event ≡ true → class.visible_to event viewer ≡ true)
      → filter_event_payloads (dump_events class events) viewer
        ≡ dump_events class (visible_events viewer events)
  unfolding filter_event_payloads
  filter_event_payloads-dump_events viewer [] v public = refl
  filter_event_payloads-dump_events viewer (event ∷ events) v public =
      let here = payload_visible viewer event v (public event) in
      let there = filter_event_payloads-dump_events viewer events v public in
      elim (Bool-cases (class.visible_to event viewer)) [
        | inl shown ↦ rw (here, shown, there) refl
        | inr hidden ↦ rw (here, hidden, there) refl
      ]

valid_inside : {A : Type 0} (r : Result A) (a : A) → as_value_error r ≡ ok a → r ≡ ok a
unfolding as_value_error
valid_inside (ok b) a h = h
valid_inside (err e) a h = cc

module _ {T : GameTypes} (class : EventClass T) (compare : Comparison T)
    (reflexive : IsReflexive compare) (definition : GameDefinition T)
    (loads : Loads class definition) where
  open definition use {serializer}

  -- A dump is dumped again as it is.
  redump-dump_turns :
      (ts : List (TurnRecord T)) (ps : List (TurnPayload T))
      → dump_turns class definition ts ≡ ok ps
      → map redump_turn ps ≡ ps
  unfolding dump_turns
  redump-dump_turns [] ps h = let empty : ps ≡ [] = cc in rw empty refl
  redump-dump_turns (t ∷ ts) ps h =
      let (p, first, more) = >>=-eq-ok (dump_turn class definition t) _ h in
      let (rest, later, done) = >>=-eq-ok (dump_turns class definition ts) _ more in
      let d = dump_turn-Dumped class definition loads t p first in
      let same : map redump p.events ≡ p.events =
        subst (λ es. map redump es ≡ es) (sym d.events) (redump-dump_events class t.events) in
      let both : ps ≡ p ∷ rest = cc done in
      let again : redump_turn p ≡ p = ap (λ es. record p { events = es }) same in
      rw (both, again, redump-dump_turns ts rest later) refl

  redump-dump_match_transcript :
      (m : LocalMatch T) (payload : TranscriptPayload T)
      → dump_match_transcript class definition m ≡ ok payload
      → redump_transcript payload ≡ payload
  unfolding dump_match_transcript
  redump-dump_match_transcript m payload h =
      let (c, config_dumped, more) = >>=-eq-ok (serializer.dump_config m.config) _ h in
      let (ps, turns_dumped, built) = >>=-eq-ok (dump_turns class definition m.turns) _ more in
      let (u, is_named, done) =
        >>=-eq-ok (raise_if (not (named definition.game_id)) value_error) _ built in
      let turns : payload.turns ≡ ps = cc done in
      ap (λ ts. record payload { turns = ts })
        (subst (λ ts. map redump_turn ts ≡ ts) (sym turns)
          (redump-dump_turns m.turns ps turns_dumped))

  checked :
      (payload : TranscriptPayload T) (loaded : LoadedMatchTranscript T) (m : LocalMatch T)
      → replay_match_transcript class compare definition payload ≡ ok (loaded, m)
      → check_model payload ≡ ok tt
  unfolding replay_match_transcript load_match_transcript
  checked payload loaded m h =
      let inside =
        valid_inside
          (load_match_transcript definition payload >>= λ l.
            validate_loaded class compare definition l)
          _ h in
      let (l, is_loaded, valid) = >>=-eq-ok (load_match_transcript definition payload) _ inside in
      (>>=-eq-ok (check_model payload) _ is_loaded).1

  -- The view of a saved full transcript is the view of the match itself: a dump of a started and played
  -- match, redacted for a viewer, is what that match would dump for the viewer, with hidden information
  -- and without. The viewer is the public or a seat; the definition is as for the validation of a dump.
  pub redact-dump_match_transcript :
      (config : T.Config) (seed : Option ℕ) (minted : ℕ) (calls : List (MatchCall T))
      (m₀ m : LocalMatch T) (payload : TranscriptPayload T) (viewer : Viewer)
      → validate_chance_support definition ≡ ok tt
      → start_match definition config seed minted ≡ ok m₀
      → play definition m₀ calls ≡ ok m
      → dump_match_transcript class definition m ≡ ok payload
      → check_viewer viewer ≡ ok tt
      → redact_match_transcript class definition compare payload viewer
        ≡ dump_match_transcript_for_viewer class definition m viewer
  unfolding redact_match_transcript dump_match_transcript_for_viewer transcript_view_for
  redact-dump_match_transcript config seed minted calls m₀ m payload viewer supported started played
        h v =
      let (loaded, replayed, same, turns) =
        replay-dump_match_transcript compare reflexive class definition loads config seed minted
          calls m₀ m payload supported started played h in
      elim (Bool-cases (is_full (view_of definition.has_hidden_information viewer).0)) [
        | inl full ↦
            rw
              (
                v,
                replayed,
                full,
                checked payload loaded (silent m) replayed,
                redump-dump_match_transcript m payload h,
              )
              (sym h)
        | inr view ↦ rw (v, replayed, view) (unfold dump_redacted in refl)
      ]
