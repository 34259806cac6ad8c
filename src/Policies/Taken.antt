-- ===== src/Policies/Taken.antt =====
-- What one device's round of the profiles makes of the policies.
use ayad_network_manager.Base.{
  ℕ, Bool, true, false, Option, none, some, List, ◌≡◌, refl, ◌∙◌, sym, ap, ◌==◌, nat_eq,
  if◌then◌else◌, Bool-cases, inl, inr, eq_refl, nat_beq_iff,
}
use ayad_network_manager.Base.Effects.{ok, pure, bind_ok}
use ayad_network_manager.Domain.IpAddress.{IpAddress}
use ayad_network_manager.Domain.Device.{Device, DevicePolicy}
use ayad_network_manager.Ports.{Call, ask_ok}
use ayad_network_manager.Policies.{ProfileRecord}
use ayad_network_manager.Policies.Profile.{
  Services, profile_of, follow_limit, follow_profile, follow_known, follow,
}
use ayad_network_manager.Domain.TcClassId.{download, upload}
use ayad_network_manager.Traffic.Enforcement.Rows.{put_limit}

abbrev pub set_download : Option ℕ → Option DevicePolicy → Option DevicePolicy
set_download = put_limit download

abbrev pub set_upload : Option ℕ → Option DevicePolicy → Option DevicePolicy
set_upload = put_limit upload

-- What a call that sets one limit of the device `d` makes of the policies, `row s`, where the device
-- has one.
abbrev pub Puts :
    {S : Type 0}
    → (S → ℕ → Option DevicePolicy)
    → Device
    → (Option DevicePolicy → Option DevicePolicy)
    → Call S (Unit {0})
    → Type 0
Puts {S} row d put m =
    (s t : S) (p : DevicePolicy)
    → row s d.id ≡ some p
    → m s ≡ (ok tt, t)
    → (k : ℕ) → row t k ≡ (if d.id == k then put (row s k) else row s k)

pub record IsRowStore {S : Type 0} (env : Services S) (row : S → ℕ → Option DevicePolicy)
    (d : Device) : Type 0 where
  pub find_row :
      (s : S) (o : Option DevicePolicy)
      → env.policies.find_by_device_id d.id s ≡ ok o
      → o ≡ row s d.id
  pub limit_download_row :
      (rate : ℕ)
      → Puts row d (set_download (some rate)) (env.traffic.limit_download d.mac.value rate)
  pub limit_upload_row :
      (rate : ℕ) → Puts row d (set_upload (some rate)) (env.traffic.limit_upload d.mac.value rate)
  pub clear_download_row : Puts row d (set_download none) (env.traffic.clear_download d.mac.value)
  pub clear_upload_row : Puts row d (set_upload none) (env.traffic.clear_upload d.mac.value)

-- What a run makes of a policy: a device with an address takes its profile's limits, both of them.
unfoldable pub followed : List ProfileRecord → Device → Option DevicePolicy → Option DevicePolicy
followed profiles d row = elim (profile_of profiles row) [
  | none ↦ row
  | some profile ↦ elim (d.ip) [
    | none ↦ row
    | some address ↦ set_upload profile.upload_limit (set_download profile.download_limit row)
  ]
]

abbrev pub change : List ProfileRecord → Device → ℕ → Option DevicePolicy → Option DevicePolicy
change profiles d k row = if d.id == k then followed profiles d row else row

module _ {S : Type 0} (env : Services S) {row : S → ℕ → Option DevicePolicy} (d : Device)
    (store : IsRowStore env row d) where
  follow_limit-row :
      (put : Option ℕ → Option DevicePolicy → Option DevicePolicy) (set_it : ℕ → Call S (Unit {0}))
      (clear_it : Call S (Unit {0})) (of_profile of_policy : Option ℕ) (s t : S) (p : DevicePolicy)
      → ((rate : ℕ) → Puts row d (put (some rate)) (set_it rate))
      → Puts row d (put none) clear_it
      → row s d.id ≡ some p
      → (of_policy ≡ none → row s d.id ≡ put none (row s d.id))
      → follow_limit of_profile of_policy set_it clear_it s ≡ (ok tt, t)
      → (k : ℕ) → row t k ≡ (if d.id == k then put of_profile (row s k) else row s k)
  unfolding follow_limit
  follow_limit-row put set_it clear_it (some rate) of_policy s t p sets clears at keep h k =
      sets rate s t p at h k
  follow_limit-row put set_it clear_it none (some rate) s t p sets clears at keep h k =
      clears s t p at h k
  follow_limit-row put set_it clear_it none none s t p sets clears at keep h k =
      let here : t ≡ s = cc in
      ap (λ v. row v k) here ∙ elim (Bool-cases (d.id == k)) [
        | inl same ↦ rw same (rw ((nat_beq_iff d.id k).0 same) at (keep refl))
        | inr other ↦ rw other refl
      ]

  kept_download :
      (o : Option DevicePolicy) (p : DevicePolicy)
      → o ≡ some p
      → p.download_limit ≡ none
      → o ≡ set_download none o
  kept_download o p at is = rw at (λ i. some (record p { download_limit = is i }))

  kept_upload :
      (o : Option DevicePolicy) (p : DevicePolicy)
      → o ≡ some p
      → p.upload_limit ≡ none
      → o ≡ set_upload none o
  kept_upload o p at is = rw at (λ i. some (record p { upload_limit = is i }))

  follow_profile-row :
      (profile : ProfileRecord) (p : DevicePolicy) (s t : S)
      → row s d.id ≡ some p
      → follow_profile env d p profile s ≡ (ok tt, t)
      → (k : ℕ)
      → row t k ≡ (
          if d.id == k
          then set_upload profile.upload_limit (set_download profile.download_limit (row s k))
          else row s k)
  unfolding follow_profile
  follow_profile-row profile p s t at h k =
      let (_, u, h1, h2) = bind_ok first (λ _. second) h in
      let down =
        follow_limit-row set_download (env.traffic.limit_download d.mac.value)
          (env.traffic.clear_download d.mac.value) (profile.download_limit) (p.download_limit) s u p
          store.limit_download_row store.clear_download_row at (kept_download (row s d.id) p at)
          h1 in
      let has : row u d.id ≡ some (record p { download_limit = profile.download_limit }) =
        down d.id
        ∙ ap (λ b. if b then set_download profile.download_limit (row s d.id) else row s d.id)
            (eq_refl d.id)
        ∙ ap (set_download profile.download_limit) at in
      let up =
        follow_limit-row set_upload (env.traffic.limit_upload d.mac.value)
          (env.traffic.clear_upload d.mac.value) (profile.upload_limit) (p.upload_limit) u t
          (record p { download_limit = profile.download_limit }) store.limit_upload_row
          store.clear_upload_row has
          (kept_upload (row u d.id) (record p { download_limit = profile.download_limit }) has)
          h2 in
      both (row s k) (row u k) (row t k) (d.id == k) (down k) (up k)
    where
      first : Call S (Unit {0})
      first =
          follow_limit profile.download_limit p.download_limit
            (env.traffic.limit_download d.mac.value) (env.traffic.clear_download d.mac.value)

      second : Call S (Unit {0})
      second =
          follow_limit profile.upload_limit p.upload_limit (env.traffic.limit_upload d.mac.value)
            (env.traffic.clear_upload d.mac.value)

      both :
          (a b c : Option DevicePolicy) (here : Bool)
          → b ≡ (if here then set_download profile.download_limit a else a)
          → c ≡ (if here then set_upload profile.upload_limit b else b)
          → c ≡ (
              if here
              then set_upload profile.upload_limit (set_download profile.download_limit a)
              else a)
      both a b c true e1 e2 = e2 ∙ ap (set_upload profile.upload_limit) e1
      both a b c false e1 e2 = e2 ∙ e1

  pub follow-change :
      (profiles : List ProfileRecord) (s t : S)
      → follow env profiles d s ≡ (ok tt, t)
      → (k : ℕ) → row t k ≡ change profiles d k (row s k)
  unfolding follow follow_known followed
  follow-change profiles s t h k =
      let (o, read, rest) = ask_ok (env.policies.find_by_device_id d.id) by_policy h in
      by_row o (sym (store.find_row s o read)) rest
    where
      by_policy : Option DevicePolicy → Call S (Unit {0})
      by_policy none = pure tt
      by_policy (some p) = follow_known env profiles d p

      -- A policy that nothing is done to.
      left :
          (o : Option DevicePolicy)
          → row s d.id ≡ o
          → followed profiles d o ≡ o
          → t ≡ s
          → row t k ≡ change profiles d k (row s k)
      left o at same here = ap (λ v. row v k) here ∙ elim (Bool-cases (d.id == k)) [
        | inl is ↦
            let at' : row s k ≡ o = ap (row s) (sym ((nat_beq_iff d.id k).0 is)) ∙ at in
            rw is (at' ∙ sym same ∙ ap (followed profiles d) (sym at'))
        | inr other ↦ rw other refl
      ]

      to_profile : Option ProfileRecord → Option IpAddress → DevicePolicy → Call S (Unit {0})
      to_profile q a p = elim q [
        | none ↦ pure tt
        | some profile ↦ elim a [ none ↦ pure tt | some address ↦ follow_profile env d p profile ]
      ]

      taken : Option ProfileRecord → Option IpAddress → Option DevicePolicy → Option DevicePolicy
      taken q a o = elim q [
        | none ↦ o
        | some profile ↦ elim a [
          | none ↦ o
          | some address ↦ set_upload profile.upload_limit (set_download profile.download_limit o)
        ]
      ]

      by_parts :
          (p : DevicePolicy) (q : Option ProfileRecord) (a : Option IpAddress)
          → row s d.id ≡ some p
          → profile_of profiles (some p) ≡ q
          → d.ip ≡ a
          → to_profile q a p s ≡ (ok tt, t)
          → row t k ≡ change profiles d k (row s k)
      by_parts p none a at e1 e2 h' = left (some p) at (λ i. taken (e1 i) (e2 i) (some p)) cc
      by_parts p (some profile) none at e1 e2 h' =
          left (some p) at (λ i. taken (e1 i) (e2 i) (some p)) cc
      by_parts p (some profile) (some address) at e1 e2 h' =
          let step = follow_profile-row profile p s t at h' k in
          let agree : followed profiles d (some p)
              ≡ set_upload profile.upload_limit (set_download profile.download_limit (some p)) =
            λ i. taken (e1 i) (e2 i) (some p) in
          elim (Bool-cases (d.id == k)) [
            | inl is ↦
                let at' : row s k ≡ some p = ap (row s) (sym ((nat_beq_iff d.id k).0 is)) ∙ at in
                rw is (
                  rw is at step
                  ∙ ap
                      (λ o. set_upload profile.upload_limit (set_download profile.download_limit o))
                      at'
                  ∙ sym agree
                  ∙ ap (followed profiles d) (sym at'))
            | inr other ↦ rw other (rw other at step)
          ]

      by_row :
          (o : Option DevicePolicy)
          → row s d.id ≡ o
          → by_policy o s ≡ (ok tt, t)
          → row t k ≡ change profiles d k (row s k)
      by_row none at e = left none at refl cc
      by_row (some p) at e = by_parts p (profile_of profiles (some p)) (d.ip) at refl refl e
