-- ===== src/Quota/Operations/Current.antt =====
-- The period that a usage counts for, with what is relied on of the store of periods.
use ayad_network_manager.Base.{
  ℕ, ◌+◌, Bool, true, false, not, ◌&&◌, ◌||◌, Option, none, some, ◌≡◌, refl, ◌∙◌, sym, ap, Text,
  ◌==◌, nat_eq, if◌then◌else◌, nat_beq_iff,
}
use ayad_network_manager.Base.Effects.{ok, pure, bind_step}
use ayad_network_manager.Ports.{Call, ask}
use ayad_network_manager.Quota.{QuotaPeriodData, Services}
use ayad_network_manager.Quota.Period.{calculate_period}
use ayad_network_manager.Quota.Operations.{get_or_create_current_period}

-- The period with each id, as `stored s`: a period that is found, made or reset is stored as it is
-- answered, a made or reset one has the given bounds and no usage, and an increment adds to what is
-- stored.
pub record IsPeriodStore {S : Type 0} (env : Services S) (stored : S → ℕ → Option QuotaPeriodData)
    : Type 0 where
  pub find_stored :
      (id : ℕ) (period_type : Text) (at : ℕ) (s : S) (p : QuotaPeriodData)
      → env.periods.find_current id period_type at s ≡ ok (some p)
      → stored s p.id ≡ some p
  pub create_stored :
      (id : ℕ) (period_type : Text) (start end : ℕ) (s t : S) (p : QuotaPeriodData)
      → env.periods.create id period_type start end s ≡ (ok p, t)
      → (stored t p.id ≡ some p)
        × (p.period_start ≡ start)
        × (p.period_end ≡ end)
        × (p.used_download_bytes ≡ 0)
        × (p.used_upload_bytes ≡ 0)
  pub reset_stored :
      (id start end : ℕ) (s t : S) (p : QuotaPeriodData)
      → env.periods.reset id start end s ≡ (ok p, t)
      → (stored t p.id ≡ some p)
        × (p.period_start ≡ start)
        × (p.period_end ≡ end)
        × (p.used_download_bytes ≡ 0)
        × (p.used_upload_bytes ≡ 0)
  pub increment_stored :
      (id download upload : ℕ) (s t : S) (p q : QuotaPeriodData)
      → stored s id ≡ some p
      → env.periods.increment_usage id download upload s ≡ (ok q, t)
      → q ≡ record p {
        used_download_bytes = p.used_download_bytes + download;
        used_upload_bytes = p.used_upload_bytes + upload;
      }

-- What of a period that is found counts for the period with these bounds.
unfoldable pub carried : ℕ → ℕ → (QuotaPeriodData → ℕ) → Option QuotaPeriodData → ℕ
carried start end used none = 0
carried start end used (some p) =
    if p.period_start == start && p.period_end == end then used p else 0

-- The period that the usage counts for.
pub record IsCurrent {S : Type 0} (stored : S → ℕ → Option QuotaPeriodData) (start end : ℕ)
    (found : Option QuotaPeriodData) (period : QuotaPeriodData) (t : S) : Type 0 where
  pub is_stored : stored t period.id ≡ some period
  pub starts : period.period_start ≡ start
  pub ends : period.period_end ≡ end
  pub downloaded : period.used_download_bytes ≡ carried start end (λ p. p.used_download_bytes) found
  pub uploaded : period.used_upload_bytes ≡ carried start end (λ p. p.used_upload_bytes) found

module _ {S : Type 0} (env : Services S) {stored : S → ℕ → Option QuotaPeriodData}
    (store : IsPeriodStore env stored) where
  pub get_or_create_current_period-IsCurrent :
      (id : ℕ) (period_type : Text) (now : ℕ) (found : Option QuotaPeriodData)
      (period : QuotaPeriodData) (s t : S)
      → env.periods.find_current id period_type now s ≡ ok found
      → get_or_create_current_period env id period_type now s ≡ (ok period, t)
      → let (start, end) = calculate_period period_type now in
        IsCurrent stored start end found period t
  unfolding get_or_create_current_period carried
  get_or_create_current_period-IsCurrent id period_type now found period s t read h =
      go found read (
        sym (
          bind_step (ask (env.periods.find_current id period_type now)) decide
            (ap (λ r. (r, s)) read))
        ∙ h)
    where
      start : ℕ
      start = (calculate_period period_type now).0

      end : ℕ
      end = (calculate_period period_type now).1

      decide : Option QuotaPeriodData → Call S QuotaPeriodData
      decide none = env.periods.create id period_type start end
      decide (some p) =
          if not (p.period_start == start) || not (p.period_end == end)
          then env.periods.reset p.id start end
          else pure p

      found_again :
          (p : QuotaPeriodData)
          → env.periods.find_current id period_type now s ≡ ok (some p)
          → (a b : Bool) → (p.period_start == start) ≡ a
          → (p.period_end == end) ≡ b
          → (if not a || not b then env.periods.reset p.id start end else pure p) s ≡ (ok period, t)
          → IsCurrent stored start end (some p) period t
      found_again p at true true e1 e2 k =
          let same : period ≡ p = cc in
          let here : t ≡ s = cc in
          rw (same, here)
            (record {
              is_stored = store.find_stored id period_type now s p at;
              starts = (nat_beq_iff p.period_start start).0 e1;
              ends = (nat_beq_iff p.period_end end).0 e2;
              downloaded = rw (e1, e2) refl;
              uploaded = rw (e1, e2) refl;
            })
      found_again p at false b e1 e2 k =
          let (here, from, to, down, up) = store.reset_stored p.id start end s t period k in
          record {
            is_stored = here;
            starts = from;
            ends = to;
            downloaded = down ∙ rw e1 refl;
            uploaded = up ∙ rw e1 refl;
          }
      found_again p at true false e1 e2 k =
          let (here, from, to, down, up) = store.reset_stored p.id start end s t period k in
          record {
            is_stored = here;
            starts = from;
            ends = to;
            downloaded = down ∙ rw (e1, e2) refl;
            uploaded = up ∙ rw (e1, e2) refl;
          }

      go :
          (found : Option QuotaPeriodData)
          → env.periods.find_current id period_type now s ≡ ok found
          → decide found s ≡ (ok period, t)
          → IsCurrent stored start end found period t
      go none at k =
          let (here, from, to, down, up) =
            store.create_stored id period_type start end s t period k in
          record { is_stored = here; starts = from; ends = to; downloaded = down; uploaded = up }
      go (some p) at k =
          found_again p at (p.period_start == start) (p.period_end == end) refl refl k
