-- ===== src/World/Deadline.antt =====
-- The deadlines of the two stages of a connection: what `fix_world_timeouts` leaves behind.
use mathlib.Core.Option
use collab_mode.Prelude.{
  ltb, ℕ, ◌+◌, ◌≤◌, ◌≡◌, inl, inr, refl, false, Bool-cases, Option, Option-cases, none, some, List,
  [], ◌∷◌, arith, Text, if◌then◌else◌,
}
use collab_mode.Map.{text_eq, text_beq, lookup}
use collab_mode.Map.Laws.{lookup-update}
use collab_mode.World.{
  RemoteStatus, RemoteState, from_secs, mark_remote_disconnected, mark_remote_failed,
}
use collab_mode.World.Fix.{
  Connections, Env, each, timed_out, timeouts, late_peers, ever_of, give_up, time_out,
  fix_world_timeouts, fix_world_signaling, fix_world_remotes, waited, fix_world, pass, followed_by,
}

-- When the running stage of an attempt began, and how many seconds it may take.
unfoldable pub stage_of : RemoteStatus → Option (ℕ × ℕ)
stage_of (RemoteStatus.connecting_stage1 since) = some (since, 10)
stage_of (RemoteStatus.connecting_stage2 since) = some (since, 30)
stage_of _ = none

-- The peer's attempt is within its time.
OnTime : ℕ → Text → List (Text × RemoteState) → Type 0
OnTime now p m = (r : RemoteState) → lookup p m ≡ some r → timed_out now r ≡ none

-- What holds of all values of a map's image holds of the one found in it.
mapped :
    (f : RemoteState → RemoteState) (P : RemoteState → Type 0) (o : Option RemoteState)
    → ((v : RemoteState) → P (f v))
    → (r : RemoteState) → Option.map f o ≡ some r
    → P r
mapped f P none all r e = absurd (cc)
mapped f P (some v) all r e = let is : f v ≡ r = cc in rw⁻¹ is (all v)

time_out-OnTime :
    (now : ℕ) (p : Text) (x : Text × Text) (s : Connections)
    → (text_beq x.0 p ≡ false → OnTime now p s.current_world.remotes)
    → OnTime now p (time_out now x s).1.current_world.remotes
unfolding time_out give_up OnTime mark_remote_disconnected mark_remote_failed timed_out
time_out-OnTime now p (q, reason) s ok r found =
    elim (Bool-cases (ever_of (lookup q s.current_world.remotes))) [
      | inl ever ↦
          let found' = rw ever at found in
          elim (Bool-cases (text_beq q p)) [
            | inl same ↦
                mapped _ (λ v. timed_out now v ≡ none) _ (λ v. refl) r
                  (rw same at (rw lookup-update at found'))
            | inr other ↦ ok other r (rw other at (rw lookup-update at found'))
          ]
      | inr never ↦
          let found' = rw never at found in
          elim (Bool-cases (text_beq q p)) [
            | inl same ↦
                mapped _ (λ v. timed_out now v ≡ none) _ (λ v. refl) r
                  (rw same at (rw lookup-update at found'))
            | inr other ↦ ok other r (rw other at (rw lookup-update at found'))
          ]
    ]

each_stays :
    (now : ℕ) (p : Text) (xs : List (Text × Text)) (s : Connections)
    → OnTime now p s.current_world.remotes
    → OnTime now p (each (time_out now) xs s).1.current_world.remotes
unfolding each
each_stays now p [] s ok = ok
each_stays now p (x ∷ xs) s ok =
    each_stays now p xs (time_out now x s).1 (time_out-OnTime now p x s (λ other. ok))

-- The loop over the entries that are late in `m`.
timeouts-OnTime :
    (now : ℕ) (p : Text) (m : List (Text × RemoteState)) (s : Connections)
    → (OnTime now p m → OnTime now p s.current_world.remotes)
    → OnTime now p (each (time_out now) (timeouts now m) s).1.current_world.remotes
unfolding timeouts each OnTime lookup
timeouts-OnTime now p [] s ok = ok (λ r found. absurd (cc))
timeouts-OnTime now p ((q, r) ∷ m) s ok = elim (Option-cases (timed_out now r)) [
  | inl fine ↦
      rw (fine, timeouts)
        (timeouts-OnTime now p m s (λ h. ok (λ r' f. elim (Bool-cases (text_beq q p)) [
          | inl same ↦ let is : r ≡ r' = (let f' = rw same at f in cc) in rw⁻¹ is fine
          | inr other ↦ h r' (rw other at f)
        ])))
  | inr (reason, late) ↦
      rw (late, timeouts)
        (timeouts-OnTime now p m (time_out now (q, reason) s).1
          (λ h. time_out-OnTime now p (q, reason) s (λ other. ok (λ r' f. h r' (rw other at f)))))
]

abbrev pair_of : ℕ → ℕ → Option (ℕ × ℕ)
pair_of a b = some (a, b)

on_time :
    (now : ℕ) (r : RemoteState) (since limit : ℕ)
    → timed_out now r ≡ none
    → stage_of r.status ≡ some (since, limit)
    → now ≤ since + from_secs limit
unfolding timed_out stage_of
on_time now r since limit fine e = go r.status fine e
  where
    within :
        (n bound : ℕ) (reason : Text)
        → (if ltb (from_secs bound) (waited now n) then some reason else none) ≡ none
        → pair_of n bound ≡ some (since, limit)
        → now ≤ since + from_secs limit
    within n bound reason f e' =
        let is_n : n ≡ since = cc in
        let is_bound : bound ≡ limit = cc in
        let early : ltb (from_secs bound) (waited now n) ≡ false = ground arith in ground arith

    go :
        (t : RemoteStatus)
        → timed_out now (record r { status = t }) ≡ none
        → stage_of t ≡ some (since, limit)
        → now ≤ since + from_secs limit
    go (RemoteStatus.connecting_stage1 n) f e' = within n 10 _ f e'
    go (RemoteStatus.connecting_stage2 n) f e' = within n 30 _ f e'
    go RemoteStatus.pending f e' = absurd (cc)
    go RemoteStatus.connected f e' = absurd (cc)
    go (RemoteStatus.disconnected n m) f e' = absurd (cc)
    go (RemoteStatus.failed m) f e' = absurd (cc)

-- After `fix_world` no attempt to connect is past its deadline, whatever its state was before: a
-- first stage that still runs began at most 10 seconds ago, a second stage at most 30.
pub fix_world-stages :
    (env : Env) (s : Connections) (p : Text) (r : RemoteState) (since limit : ℕ)
    → lookup p (fix_world env s).1.current_world.remotes ≡ some r
    → stage_of r.status ≡ some (since, limit)
    → env.now ≤ since + from_secs limit
unfolding fix_world followed_by fix_world_timeouts pass late_peers OnTime
fix_world-stages env s p r since limit found stage =
    let before = (fix_world_remotes env (fix_world_signaling env s).1).1 in
    on_time env.now r since limit
      (timeouts-OnTime env.now p before.current_world.remotes before (λ h. h) r found) stage
