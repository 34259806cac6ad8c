-- ===== src/Quota/Thresholds.antt =====
-- What the view of a quota says, and that each threshold is notified once.
use ayad_network_manager.Base.{
  ℕ, ◌+◌, ◌-◌, ◌*◌, ◌≤◌, ◌≡◌, refl, Bool, true, ◌||◌, Option, some, Text, ltb, ◌==◌, nat_eq,
  if◌then◌else◌, any, arith, Bool-cases, inl, inr, ◌↔◌, eq_refl, ◌∙◌, ap,
}
use ayad_network_manager.Base.Effects.{ok, ◌>>◌, bind_ok, bind_step}
use ayad_network_manager.Quota.{QuotaPeriodData, build_view, Services, same_key, Notified}
use ayad_network_manager.Quota.Notification.{notify_threshold, notify_thresholds}

-- A quota is exhausted exactly when no byte of it remains; until then, what is used and what remains
-- make up the quota.
build_view-exhausted :
    (quota : ℕ) (quota_period : Text) (quota_action : Option Text) (period : QuotaPeriodData)
    → let view = build_view quota quota_period quota_action period in
      (remaining : ℕ) × (view.remaining_bytes ≡ some remaining)
      × (view.exhausted ≡ true ↔ remaining ≡ 0)
      × (quota ≤ view.used_bytes + remaining)
      × (view.used_bytes + remaining ≡ (if view.exhausted then view.used_bytes else quota))
unfolding build_view
build_view-exhausted quota quota_period quota_action period =
    let used = period.used_download_bytes + period.used_upload_bytes in
    (
      if ltb used quota then quota - used else 0,
      refl,
      (λ h. ground arith, λ h. ground arith),
      ground arith,
      ground arith,
    )

module _ {S : Type 0} (env : Services S) (id : ℕ) (mac : Text) (quota used period_start : ℕ) where
  abbrev settled : ℕ → Notified → Bool
  settled threshold keys =
      ltb (used * 100) (quota * threshold) || any (same_key (id, (period_start, threshold))) keys

  -- A round settles its threshold and unsettles no other.
  notify_threshold-settled :
      (threshold : ℕ) (t : Notified × S)
      → let u = (notify_threshold env id mac quota used period_start threshold t).1 in
        (settled threshold u.0 ≡ true)
        × ((other : ℕ) → settled other t.0 ≡ true → settled other u.0 ≡ true)
  unfolding notify_threshold
  notify_threshold-settled threshold t = elim (Bool-cases (settled threshold t.0)) [
    | inl before ↦ rw (before, notify_threshold) (before, λ other h. h)
    | inr fresh ↦
        rw (fresh, notify_threshold)
          (
            ground (arith, eq_refl id, eq_refl period_start, eq_refl threshold),
            λ other h. ground arith,
          )
  ]

  notify_threshold-again :
      (threshold : ℕ) (t : Notified × S)
      → settled threshold t.0 ≡ true
      → notify_threshold env id mac quota used period_start threshold t ≡ (ok tt, t)
  unfolding notify_threshold
  notify_threshold-again threshold t before = rw (before, notify_threshold) refl

  -- Once the thresholds that a usage reaches are notified, notifying that usage again sends nothing
  -- and changes nothing.
  pub notify_thresholds-once :
      (t u : Notified × S)
      → notify_thresholds env id mac quota used period_start t ≡ (ok tt, u)
      → notify_thresholds env id mac quota used period_start u ≡ (ok tt, u)
  unfolding notify_thresholds
  notify_thresholds-once t u h = elim (Bool-cases (quota == 0)) [
    | inl empty ↦ rw (empty, notify_thresholds) refl
    | inr positive ↦
        let round = notify_threshold env id mac quota used period_start in
        let (_, t80, h80, k80) =
          bind_ok (round 80) (λ _. round 90 >> round 100) (rw (positive, notify_thresholds) at h) in
        let (_, t90, h90, h100) = bind_ok (round 90) (λ _. round 100) k80 in
        let s80 = step 80 t t80 h80 in
        let s90 = step 90 t80 t90 h90 in
        let s100 = step 100 t90 u h100 in
        rw (positive, notify_thresholds)
          (bind_step (round 80) (λ _. round 90 >> round 100)
              (notify_threshold-again 80 u (s100.1 80 (s90.1 80 s80.0)))
            ∙ bind_step (round 90) (λ _. round 100) (notify_threshold-again 90 u (s100.1 90 s90.0))
            ∙ notify_threshold-again 100 u s100.0)
  ]
    where
      step :
          (threshold : ℕ) (v w : Notified × S)
          → notify_threshold env id mac quota used period_start threshold v ≡ (ok tt, w)
          → (settled threshold w.0 ≡ true)
            × ((other : ℕ) → settled other v.0 ≡ true → settled other w.0 ≡ true)
      step threshold v w e =
          let r = notify_threshold-settled threshold v in
          let same : (notify_threshold env id mac quota used period_start threshold v).1 ≡ w =
            ap (λ p. p.1) e in
          rw same at r
