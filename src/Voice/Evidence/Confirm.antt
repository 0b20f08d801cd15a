-- ===== src/Voice/Evidence/Confirm.antt =====
-- The tracker against one small automaton for each channel and user, and when it confirms.
use kergit_server.Base.{
  ℕ, ◌+◌, ◌≤◌, ◌<◌, ◌≡◌, refl, ap, ap₂, ◌∙◌, Bool, true, false, Option, none, some, List, [], ◌∷◌,
  ◌++◌, map, String, arith, ite, dec_eq, leb, if◌then◌else◌, All,
}
use kergit_server.Base.Map.{find, put, erase, find-put, find-erase, find-empty, find_of_is_empty}
use kergit_server.Ids.{ChannelId, UserId, channel_id_key, user_id_key}
use kergit_server.Voice.Evidence.{
  Tracker, MissingObservation, ByUser, entry, or_new, drop_user, observe_channel_missing,
  observe_participant_missing, clear_channel_missing, clear_participant_missing, reset_channel,
  reset_all,
}

pub data Call : Type 0 where
  sees_channel_missing : ChannelId → String → ℕ → Call
  sees_user_missing : ChannelId → UserId → String → ℕ → Call
  clears_channel resets : ChannelId → Call
  clears_user : ChannelId → UserId → Call
  resets_all : Call

pub step : Call → Tracker → Tracker
step (sees_channel_missing c r now) t = (observe_channel_missing c r now t).0
step (sees_user_missing c u r now) t = (observe_participant_missing c u r now t).0
step (clears_channel c) t = clear_channel_missing c t
step (resets c) t = reset_channel c t
step (clears_user c u) t = clear_participant_missing c u t
step resets_all t = reset_all t

-- What the tracker knows of one channel and of one user in it.
pub record View : Type 0 where
  pub channel : Option MissingObservation
  pub user : Option MissingObservation

abbrev pub lookup_user : ChannelId → UserId → Tracker → Option MissingObservation
lookup_user c u t = find u (or_new (find c t.missing_participants))

abbrev pub view : ChannelId → UserId → Tracker → View
view c u t = record { channel = find c t.missing_channels; user = lookup_user c u t }

-- Absence is seen at `now`: it stays suspected from the first time, until that is `ttl` ago.
abbrev pub suspect : ℕ → String → ℕ → Option MissingObservation → Option MissingObservation
suspect ttl r now none = some (record { first_seen = now; reason = r })
suspect ttl r now (some o) = if leb (o.first_seen + ttl) now then none else some o

abbrev pub is_confirmed : ℕ → ℕ → Option MissingObservation → Bool
is_confirmed ttl now none = false
is_confirmed ttl now (some o) = leb (o.first_seen + ttl) now

-- What a call means for one channel and one user, the others put aside.
pub step_view : ℕ → ChannelId → UserId → Call → View → View
step_view ttl c u (sees_channel_missing d r now) w =
    ite (dec_eq d c)
      (record {
        channel = suspect ttl r now w.channel;
        user = if is_confirmed ttl now w.channel then none else w.user;
      })
      w
step_view ttl c u (sees_user_missing d v r now) w =
    ite (dec_eq d c) (ite (dec_eq v u) (record w { user = suspect ttl r now w.user }) w) w
step_view ttl c u (clears_channel d) w = ite (dec_eq d c) (record w { channel = none }) w
step_view ttl c u (resets d) w = ite (dec_eq d c) (record { channel = none; user = none }) w
step_view ttl c u (clears_user d v) w =
    ite (dec_eq d c) (ite (dec_eq v u) (record w { user = none }) w) w
step_view ttl c u resets_all w = record { channel = none; user = none }

module _ (c : ChannelId) (u : UserId) (t : Tracker) where
  lookup-drop :
      (d : ChannelId) (v : UserId) (users : ByUser)
      → or_new (find d t.missing_participants) ≡ users
      → find u (or_new (find c (drop_user d v users t.missing_participants)))
        ≡ ite (dec_eq d c) (ite (dec_eq v u) none (lookup_user c u t)) (lookup_user c u t)
  unfolding drop_user
  lookup-drop d v users h = ground (
    arith,
    find-put d c (erase v users) t.missing_participants,
    find-erase d c t.missing_participants,
    find-erase v u users,
    find-empty {V = MissingObservation} u,
    find_of_is_empty u (erase v users),
  )

  view-step : (k : Call) → view c u (step k t) ≡ step_view t.missing_ttl c u k (view c u t)
  unfolding step step_view
  view-step (sees_channel_missing d r now) =
      unfold observe_channel_missing in
      ground (
        arith,
        find-put d c (entry (find d t.missing_channels) r now) t.missing_channels,
        find-erase d c t.missing_channels,
        find-erase d c t.missing_participants,
        find-empty {V = MissingObservation} u,
      )
  view-step (sees_user_missing d v r now) =
      let users = or_new (find d t.missing_participants) in
      unfold observe_participant_missing in
      ground (
        arith,
        find-put d c (put v (entry (find v users) r now) users) t.missing_participants,
        find-put v u (entry (find v users) r now) users,
        lookup-drop d v users refl,
      )
  view-step (clears_channel d) =
      unfold clear_channel_missing in ground (arith, find-erase d c t.missing_channels)
  view-step (resets d) =
      unfold reset_channel in
      ground (
        arith,
        find-erase d c t.missing_channels,
        find-erase d c t.missing_participants,
        find-empty {V = MissingObservation} u,
      )
  view-step (clears_user d v) =
      unfold clear_participant_missing in
      ground (
        arith,
        lookup-drop d v (or_new (find d t.missing_participants)) refl,
        find-empty {V = MissingObservation} u,
      )
  view-step resets_all =
      unfold reset_all in
      ground (
        arith,
        find-empty {V = MissingObservation} c,
        find-empty {V = ByUser} c,
        find-empty {V = MissingObservation} u,
      )

pub ttl-step : (k : Call) (t : Tracker) → (step k t).missing_ttl ≡ t.missing_ttl
unfolding step
ttl-step (sees_channel_missing d r now) t = unfold observe_channel_missing in ground arith
ttl-step (sees_user_missing d v r now) t = unfold observe_participant_missing in ground arith
ttl-step (clears_channel d) t = unfold clear_channel_missing in refl
ttl-step (resets d) t = unfold reset_channel in refl
ttl-step (clears_user d v) t = unfold clear_participant_missing in ground arith
ttl-step resets_all t = unfold reset_all in refl

pub run : List Call → Tracker → Tracker
run [] t = t
run (k ∷ ks) t = run ks (step k t)

pub run_view : ℕ → ChannelId → UserId → List Call → View → View
run_view ttl c u [] w = w
run_view ttl c u (k ∷ ks) w = run_view ttl c u ks (step_view ttl c u k w)

-- What the tracker knows of a channel and a user after any calls is what the automaton of that
-- channel and user reaches on them: an absence stays suspected from the first time it is seen
-- until it is confirmed, cleared or reset; a confirmed channel takes its users with it; and calls
-- about other channels and users change nothing.
pub view-run :
    (ks : List Call) (c : ChannelId) (u : UserId) (t : Tracker)
    → view c u (run ks t) ≡ run_view t.missing_ttl c u ks (view c u t)
unfolding run run_view
view-run [] c u t = refl
view-run (k ∷ ks) c u t =
    view-run ks c u (step k t) ∙ ap₂ (λ n w. run_view n c u ks w) (ttl-step k t) (view-step c u t k)

-- The answers to a row of observations of one channel.
pub confirmations : ChannelId → String → List ℕ → Tracker → List Bool
confirmations c r [] t = []
confirmations c r (now ∷ rest) t =
    (observe_channel_missing c r now t).1.confirmed
    ∷ confirmations c r rest (observe_channel_missing c r now t).0

record Suspects (c : ChannelId) (since : ℕ) (t : Tracker) : Type 0 where
  observation : MissingObservation
  here : find c t.missing_channels ≡ some observation
  since_then : observation.first_seen ≡ since

module _ (c : ChannelId) (r : String) (start : ℕ) where
  Suspects-first :
      (t : Tracker)
      → find c t.missing_channels ≡ none
      → Suspects c start (observe_channel_missing c r start t).0
        × ((observe_channel_missing c r start t).1.confirmed ≡ false)
        × ((observe_channel_missing c r start t).0.missing_ttl ≡ t.missing_ttl)
  unfolding observe_channel_missing
  Suspects-first t h =
      let o : MissingObservation = record { first_seen = start; reason = r } in
      (
        record {
          observation = o;
          here = ground (arith, find-put c c o t.missing_channels);
          since_then = refl;
        },
        ground arith,
        ground arith,
      )

  Suspects-early :
      (now : ℕ) (t : Tracker)
      → Suspects c start t
      → now < start + t.missing_ttl
      → Suspects c start (observe_channel_missing c r now t).0
        × ((observe_channel_missing c r now t).1.confirmed ≡ false)
        × ((observe_channel_missing c r now t).0.missing_ttl ≡ t.missing_ttl)
  unfolding observe_channel_missing
  Suspects-early now t s early = (
    record {
      observation = s.observation;
      here = ground (arith, s.here, find-put c c s.observation t.missing_channels);
      since_then = s.since_then;
    },
    ground (arith, s.here),
    ground (arith, s.here),
  )

  late_confirms :
      (now : ℕ) (t : Tracker)
      → Suspects c start t
      → start + t.missing_ttl ≤ now
      → (observe_channel_missing c r now t).1.confirmed ≡ true
  unfolding observe_channel_missing
  late_confirms now t s late = ground (arith, s.here)

  row :
      (ts : List ℕ) (now : ℕ) (t : Tracker)
      → Suspects c start t
      → All (λ s. s < start + t.missing_ttl) ts
      → start + t.missing_ttl ≤ now
      → confirmations c r (ts ++ now ∷ []) t ≡ map (λ _. false) ts ++ true ∷ []
  unfolding confirmations
  row [] now t s early late = ap (λ b. b ∷ []) (late_confirms now t s late)
  row (x ∷ xs) now t s early late =
      let (s', answer, same) = Suspects-early x t s early.0 in
      ap₂ ◌∷◌ answer
        (row xs now (observe_channel_missing c r x t).0 s' (rw same early.1) (rw same late))

  -- From a channel that is not suspected: the first observation of its absence and all those less
  -- than `missing_ttl` later do not confirm it, and the next one that is not less does.
  pub confirmed_after_ttl :
      (ts : List ℕ) (now : ℕ) (t : Tracker)
      → find c t.missing_channels ≡ none
      → All (λ s. s < start + t.missing_ttl) ts
      → start + t.missing_ttl ≤ now
      → confirmations c r (start ∷ ts ++ now ∷ []) t ≡ false ∷ map (λ _. false) ts ++ true ∷ []
  unfolding confirmations
  confirmed_after_ttl ts now t fresh early late =
      let (s, answer, same) = Suspects-first t fresh in
      ap₂ ◌∷◌ answer
        (row ts now (observe_channel_missing c r start t).0 s (rw same early) (rw same late))
