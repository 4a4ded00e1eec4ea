-- ===== src/Server/RateLimits.antt =====
-- src/arena/server/rate_limits.py: the gauges of open connections and the sliding windows of events.
-- Addresses and match ids are numbers here, and so are times (the source has strings and floats);
-- the moment that `time_fn` returns is an argument. It is read before the lock is taken, so that the
-- moments of successive operations may go back. An operation returns the limiter with the scope
-- of the cap that was exceeded, if one was: a raised `RateLimitExceeded` keeps what was written.
pub mod Sliding
pub mod Follows
pub mod Exact
pub mod Slots
pub mod Reserve
pub mod Gauges
pub mod Bounded
pub mod Connections
use agents_arena.Prelude.{
  ℕ, zero, suc, ◌+◌, ◌-◌, ◌*◌, Bool, true, false, not, ◌&&◌, ◌||◌, Option, none, some, List, [],
  ◌∷◌, ◌++◌, length, get_elem?, ltb, leb, ◌==◌, if◌then◌else◌,
}
use agents_arena.Core.Errors.{Result, ok, err, index_error}

-- A dictionary, in insertion order.
abbrev pub Dict : Type 0 → Type 0
Dict A = List (ℕ × A)

unfoldable pub get : {A : Type 0} → ℕ → Dict A → Option A
get key [] = none
get key ((k, value) ∷ rest) = let later = get key rest in if key == k then some value else later

unfoldable pub get_or : {A : Type 0} → A → Option A → A
get_or default none = default
get_or default (some value) = value

unfoldable pub put : {A : Type 0} → ℕ → A → Dict A → Dict A
put key value [] = (key, value) ∷ []
put key value ((k, old) ∷ rest) =
    let later = put key value rest in if key == k then (k, value) ∷ rest else (k, old) ∷ later

pub pop : {A : Type 0} → ℕ → Dict A → Dict A
pop key [] = []
pop key ((k, value) ∷ rest) =
    let later = pop key rest in if key == k then rest else (k, value) ∷ later

-- Times are counted in milliseconds.
abbrev pub match_creation_window_s : ℕ
match_creation_window_s = 60000

abbrev pub open_window_s : ℕ
open_window_s = 60000

abbrev pub read_window_s : ℕ
read_window_s = 60000

abbrev pub action_window_s : ℕ
action_window_s = 1000

abbrev pub prune_threshold : ℕ
prune_threshold = 4096

pub data Scope : Type 0 where
  connection_opens_per_ip connections_per_ip spectators_per_match : Scope
  connections_per_match match_creations_per_ip transcript_reads_per_ip : Scope
  actions_per_match : Scope

-- A dictionary of windows, with its entry of `_prune_at`: the size and the time of the last scan.
pub record Windows : Type 0 where
  pub entries : Dict (List ℕ)
  pub prune_at : Option (ℕ × ℕ)

pub record Caps : Type 0 where
  pub max_ws_per_ip : ℕ
  pub max_creations_per_ip : ℕ
  pub max_actions_per_match : ℕ
  pub max_conns_per_match : ℕ
  pub max_spectators_per_match : ℕ
  pub max_opens_per_ip : ℕ
  pub max_reads_per_ip : ℕ

-- The caps that the constructor has by default.
abbrev pub default_caps : Caps
default_caps = record {
  max_ws_per_ip = 8;
  max_creations_per_ip = 5;
  max_actions_per_match = 10;
  max_conns_per_match = 4;
  max_spectators_per_match = 16;
  max_opens_per_ip = 60;
  max_reads_per_ip = 30;
}

pub record RateLimiter : Type 0 where
  pub caps : Caps
  pub conns_per_ip : Dict ℕ
  pub conns_per_match : Dict ℕ
  pub spectators_of : Dict ℕ
  pub creations : Windows
  pub opens : Windows
  pub reads : Windows
  pub actions : Dict (List ℕ)

abbrev pub no_windows : Windows
no_windows = record { entries = []; prune_at = none }

unfoldable pub make_limiter : Caps → RateLimiter
make_limiter caps = record {
  caps = caps;
  conns_per_ip = [];
  conns_per_match = [];
  spectators_of = [];
  creations = no_windows;
  opens = no_windows;
  reads = no_windows;
  actions = [];
}

-- `_prune`: `window[0] <= now - span`, on floats.
pub prune : ℕ → ℕ → List ℕ → List ℕ
prune now span [] = []
prune now span (x ∷ xs) =
    let rest = prune now span xs in if leb (x + span) now then rest else x ∷ xs

-- `not w or w[-1] <= now - span`.
pub is_stale : ℕ → ℕ → List ℕ → Bool
is_stale now span [] = true
is_stale now span (x ∷ []) = leb (x + span) now
is_stale now span (x ∷ y ∷ w) = is_stale now span (y ∷ w)

-- The deletion of the stale windows.
pub sweep : ℕ → ℕ → Dict (List ℕ) → Dict (List ℕ)
sweep now span [] = []
sweep now span ((k, w) ∷ rest) =
    let later = sweep now span rest in if is_stale now span w then later else (k, w) ∷ later

abbrev max : ℕ → ℕ → ℕ
max a b = if ltb a b then b else a

-- Whether a scan is due.
pub is_due : Windows → ℕ → ℕ → Bool
is_due windows now span =
    let (threshold, last_scan) = get_or (prune_threshold, now) windows.prune_at in
    leb threshold (length windows.entries)
    || (leb prune_threshold (length windows.entries) && leb (last_scan + span) now)

-- The dictionary after the scan that a new key may bring.
pub scan : Windows → ℕ → ℕ → ℕ → Windows
unfolding is_due sweep
scan windows key now span = elim (get key windows.entries) [
  | some w ↦ windows
  | none ↦
      let swept = sweep now span windows.entries in
      if is_due windows now span
      then record { entries = swept; prune_at = some (max prune_threshold (2 * length swept), now) }
      else windows
]

-- `_window`: the dictionary with the key's pruned window in it, and that window.
unfoldable pub window : Windows → ℕ → ℕ → ℕ → Windows × List ℕ
unfolding scan prune get get_or put
window windows key now span =
    let scanned = scan windows key now span in
    let pruned = prune now span (get_or [] (get key scanned.entries)) in
    (record scanned { entries = put key pruned scanned.entries }, pruned)

-- The length test and the append that each windowed check goes on with: true if it was recorded.
unfoldable pub check_window : Windows → ℕ → ℕ → ℕ → ℕ → Windows × Bool
unfolding put
check_window windows key now span cap =
    let (pruned, w) = window windows key now span in
    if leb cap (length w)
    then (pruned, false)
    else (record pruned { entries = put key (w ++ now ∷ []) pruned.entries }, true)

abbrev pub refused : Bool → Scope → Option Scope
refused accepted scope = if accepted then none else some scope

unfoldable pub check_match_creation : RateLimiter → ℕ → ℕ → RateLimiter × Option Scope
check_match_creation l ip now =
    let (creations, accepted) =
      check_window l.creations ip now match_creation_window_s l.caps.max_creations_per_ip in
    (record l { creations = creations }, refused accepted match_creations_per_ip)

unfoldable pub check_transcript_read : RateLimiter → ℕ → ℕ → RateLimiter × Option Scope
check_transcript_read l ip now =
    let (reads, accepted) = check_window l.reads ip now read_window_s l.caps.max_reads_per_ip in
    (record l { reads = reads }, refused accepted transcript_reads_per_ip)

unfoldable pub check_action : RateLimiter → ℕ → ℕ → RateLimiter × Option Scope
unfolding prune get get_or put
check_action l match_id now =
    let w = prune now action_window_s (get_or [] (get match_id l.actions)) in
    if leb l.caps.max_actions_per_match (length w)
    then (record l { actions = put match_id w l.actions }, some actions_per_match)
    else (record l { actions = put match_id (w ++ now ∷ []) l.actions }, none)

-- `window[-n]`, for which -0 is 0.
pub from_end : List ℕ → ℕ → Result ℕ
from_end w n = elim (get_elem? w (if n == 0 then 0 else length w - n)) [
  | none ↦ err index_error
  | some x ↦ ok x
]

-- The slot that is reserved in a pruned window.
unfoldable pub next_slot : ℕ → List ℕ → ℕ → ℕ → Result ℕ
unfolding from_end
next_slot cap w now span =
    if ltb (length w) cap
    then ok now
    else elim (from_end w cap) [ err e ↦ err e | ok x ↦ ok (max now (x + span)) ]

-- The limiter and the time to wait.
unfoldable pub reserve_action : RateLimiter → ℕ → ℕ → Result (RateLimiter × ℕ)
unfolding prune get get_or put
reserve_action l match_id now =
    let w = prune now action_window_s (get_or [] (get match_id l.actions)) in
    elim (next_slot l.caps.max_actions_per_match w now action_window_s) [
      | err e ↦ err e
      | ok slot ↦ ok (record l { actions = put match_id (w ++ slot ∷ []) l.actions }, slot - now)
    ]

-- A gauge's slot is taken if the count is below the cap.
unfoldable pub acquire_slot : ℕ → Dict ℕ → ℕ → Option (Dict ℕ)
unfolding get get_or put
acquire_slot cap gauge key =
    let count = get_or 0 (get key gauge) in
    if leb cap count then none else some (put key (count + 1) gauge)

-- `count - 1 > 0` keeps the key, else it is popped.
unfoldable pub release_slot : Dict ℕ → ℕ → Dict ℕ
unfolding get get_or put pop
release_slot gauge key =
    let count = get_or 0 (get key gauge) in
    if ltb 1 count then put key (count - 1) gauge else pop key gauge

unfoldable pub acquire_ip : RateLimiter → ℕ → ℕ → RateLimiter × Option Scope
acquire_ip l ip now =
    let (opens, accepted) = check_window l.opens ip now open_window_s l.caps.max_opens_per_ip in
    let counted = record l { opens = opens } in
    if not accepted
    then (counted, some connection_opens_per_ip)
    else elim (acquire_slot l.caps.max_ws_per_ip l.conns_per_ip ip) [
      | none ↦ (counted, some connections_per_ip)
      | some gauge ↦ (record counted { conns_per_ip = gauge }, none)
    ]

unfoldable pub release_ip : RateLimiter → ℕ → RateLimiter
release_ip l ip = record l { conns_per_ip = release_slot l.conns_per_ip ip }

unfoldable pub acquire_match_slot : RateLimiter → ℕ → Bool → RateLimiter × Option Scope
acquire_match_slot l match_id true =
    elim (acquire_slot l.caps.max_spectators_per_match l.spectators_of match_id) [
      | none ↦ (l, some spectators_per_match)
      | some gauge ↦ (record l { spectators_of = gauge }, none)
    ]
acquire_match_slot l match_id false =
    elim (acquire_slot l.caps.max_conns_per_match l.conns_per_match match_id) [
      | none ↦ (l, some connections_per_match)
      | some gauge ↦ (record l { conns_per_match = gauge }, none)
    ]

unfoldable pub release_match_slot : RateLimiter → ℕ → Bool → RateLimiter
release_match_slot l match_id true = record l {
  spectators_of = release_slot l.spectators_of match_id;
}
release_match_slot l match_id false = record l {
  conns_per_match = release_slot l.conns_per_match match_id;
}

-- The address first; its slot is given back if the match has none left.
unfoldable pub acquire_connection : RateLimiter → ℕ → ℕ → Bool → ℕ → RateLimiter × Option Scope
acquire_connection l ip match_id spectator now =
    let (l₁, refused_ip) = acquire_ip l ip now in
    let (l₂, refused_match) = acquire_match_slot l₁ match_id spectator in
    elim refused_ip [
      | some scope ↦ (l₁, some scope)
      | none ↦ elim refused_match [
        | none ↦ (l₂, none)
        | some scope ↦ (release_ip l₂ ip, some scope)
      ]
    ]

unfoldable pub release_connection : RateLimiter → ℕ → ℕ → Bool → RateLimiter
release_connection l ip match_id spectator = release_match_slot (release_ip l ip) match_id spectator

unfoldable pub forget_match : RateLimiter → ℕ → RateLimiter
unfolding pop
forget_match l match_id = record l {
  conns_per_match = pop match_id l.conns_per_match;
  spectators_of = pop match_id l.spectators_of;
  actions = pop match_id l.actions;
}
