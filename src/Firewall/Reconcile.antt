-- ===== src/Firewall/Reconcile.antt =====
-- After `reconcile` the kernel blocks exactly what the policies ask for.
use ayad_network_manager.Base.{
  Bool, not, ◌&&◌, ◌||◌, ◌≡◌, refl, ◌∙◌, ap, List, [], ◌∷◌, Text, ◌==◌, text_eq, text_beq_iff, All,
  arith, All-map, All-every, if◌then◌else◌, any, Bool-cases, inl, inr,
}
use ayad_network_manager.Base.Map.{has}
use ayad_network_manager.Base.Effects.{
  ok, ◌>>=◌, ◌>>◌, for_each, bind_ok, Changes, changes, for_each-changes,
}
use ayad_network_manager.Domain.Device.{Device}
use ayad_network_manager.Ports.{Call, Read, ask, ask_ok, call_if}
use ayad_network_manager.Firewall.{
  Collaborators, desired, block_text, unblock_unless, unblock_ip_unless, blocked_macs, blocked_ips,
  for_existing, install, reconcile,
}
use ayad_network_manager.Firewall.Desired.{asks_mac, asks_ip, desired-has, desired-IsCanonical}
use ayad_network_manager.Firewall.Kernel.{IsCanonical, IsBlocker}

-- The loops, on one address.
abbrev put : Text → Text → Bool → Bool
put m x b = m == x || b

abbrev drop_unless : List Text → Text → Text → Bool → Bool
drop_unless keep m x b = if has m keep then b else (not (m == x) && b)

abbrev same : Text → Text → Bool → Bool
same m x b = b

changes-put : (ms : List Text) (x : Text) (b : Bool) → changes put ms x b ≡ (has x ms || b)
unfolding has
changes-put [] x b = refl
changes-put (m ∷ ms) x b = ground (arith, changes-put ms x (put m x b))

changes-same : (ms : List Text) (x : Text) (b : Bool) → changes same ms x b ≡ b
changes-same [] x b = refl
changes-same (m ∷ ms) x b = changes-same ms x b

changes-drop_unless :
    (keep ms : List Text) (x : Text) (b : Bool)
    → changes (drop_unless keep) ms x b ≡ (b && (not (has x ms) || has x keep))
unfolding has
changes-drop_unless keep [] x b = ground arith
changes-drop_unless keep (m ∷ ms) x b = elim (Bool-cases (m == x)) [
  | inl e ↦
      let here : has m keep ≡ has x keep = ap (λ y. has y keep) ((text_beq_iff m x).0 e) in
      rw (changes-drop_unless keep ms x (drop_unless keep m x b), e) (ground (arith, here))
  | inr ne ↦ rw (changes-drop_unless keep ms x (drop_unless keep m x b), ne) (ground arith)
]

module _ {S : Type 0} (env : Collaborators S) {macs ips : S → Text → Bool}
    (kernel : IsBlocker (env.blocker) macs ips) where
  open kernel use {block_macs, block_ips, unblock_macs, unblock_ips}

  block_text-macs : (m : Text) → IsCanonical m → Changes macs (block_text env) put m
  unfolding block_text
  block_text-macs m c s = rw c (block_macs (record { value = m }) s)

  block_text-ips : (m : Text) → IsCanonical m → Changes ips (block_text env) same m
  unfolding block_text
  block_text-ips m c s = rw c (block_ips (record { value = m }) s)

  unblock_unless-macs :
      (keep : List Text) (m : Text)
      → IsCanonical m
      → Changes macs (unblock_unless env keep) (drop_unless keep) m
  unfolding unblock_unless
  unblock_unless-macs keep m c s = elim (Bool-cases (has m keep)) [
    | inl kept ↦ rw kept (λ h k. refl)
    | inr dropped ↦ rw (dropped, c) (unblock_macs (record { value = m }) s)
  ]

  unblock_unless-ips :
      (keep : List Text) (m : Text) → IsCanonical m → Changes ips (unblock_unless env keep) same m
  unfolding unblock_unless
  unblock_unless-ips keep m c s = elim (Bool-cases (has m keep)) [
    | inl kept ↦ rw kept (λ h k. refl)
    | inr dropped ↦ rw (dropped, c) (unblock_ips (record { value = m }) s)
  ]

  block_ip-ips : (ip : Text) → Changes ips (call_if (env.blocker.block_ip)) put ip
  block_ip-ips ip s = rw (kernel.has_block_ip) (kernel.block_ip_ips ip s)

  block_ip-macs : (ip : Text) → Changes macs (call_if (env.blocker.block_ip)) same ip
  block_ip-macs ip s = rw (kernel.has_block_ip) (kernel.block_ip_macs ip s)

  unblock_ip_unless-ips :
      (keep : List Text) (ip : Text)
      → Changes ips (unblock_ip_unless env keep) (drop_unless keep) ip
  unfolding unblock_ip_unless
  unblock_ip_unless-ips keep ip s = elim (Bool-cases (has ip keep)) [
    | inl kept ↦ rw kept (λ h k. refl)
    | inr dropped ↦ rw (dropped, kernel.has_unblock_ip) (kernel.unblock_ip_ips ip s)
  ]

  unblock_ip_unless-macs :
      (keep : List Text) (ip : Text) → Changes macs (unblock_ip_unless env keep) same ip
  unfolding unblock_ip_unless
  unblock_ip_unless-macs keep ip s = elim (Bool-cases (has ip keep)) [
    | inl kept ↦ rw kept (λ h k. refl)
    | inr dropped ↦ rw (dropped, kernel.has_unblock_ip) (kernel.unblock_ip_macs ip s)
  ]

  -- A call that answers a list and the loop over it.
  for_existing_ok :
      (existing : Read S (List Text)) (body : Text → Call S (Unit {0})) (s t : S)
      → for_existing env existing body s ≡ (ok tt, t)
      → (l : List Text) × (existing s ≡ ok l) × (for_each l body s ≡ (ok tt, t))
  for_existing_ok existing body s t h = ask_ok existing (λ found. for_each found body) h

  prune_macs :
      (keep : List Text) (s t : S)
      → for_existing env (blocked_macs env) (unblock_unless env keep) s ≡ (ok tt, t)
      → (x : Text) → (macs t x ≡ (macs s x && has x keep)) × (ips t x ≡ ips s x)
  unfolding blocked_macs
  prune_macs keep s t h x =
      let (l, read, loop) = for_existing_ok (blocked_macs env) (unblock_unless env keep) s t h in
      let (canonical, all_macs) = kernel.read_macs_all s l (rw (kernel.has_read_macs) at read) in
      let body = unblock_unless env keep in
      (
        for_each-changes macs body (drop_unless keep) l s t
              (All-map l (unblock_unless-macs keep) canonical) loop x
            ∙ changes-drop_unless keep l x (macs s x)
            ∙ ground (arith, all_macs x),
        for_each-changes ips body same l s t (All-map l (unblock_unless-ips keep) canonical) loop x
            ∙ changes-same l x (ips s x),
      )

  prune_ips :
      (keep : List Text) (s t : S)
      → for_existing env (blocked_ips env) (unblock_ip_unless env keep) s ≡ (ok tt, t)
      → (x : Text) → (macs t x ≡ macs s x) × (ips t x ≡ (ips s x && has x keep))
  unfolding blocked_ips
  prune_ips keep s t h x =
      let (l, read, loop) = for_existing_ok (blocked_ips env) (unblock_ip_unless env keep) s t h in
      let all_ips = kernel.read_ips_all s l (rw (kernel.has_read_ips) at read) in
      let body = unblock_ip_unless env keep in
      (
        for_each-changes macs body same l s t (All-every l (unblock_ip_unless-macs keep)) loop x
            ∙ changes-same l x (macs s x),
        for_each-changes ips body (drop_unless keep) l s t
              (All-every l (unblock_ip_unless-ips keep)) loop x
            ∙ changes-drop_unless keep l x (ips s x)
            ∙ ground (arith, all_ips x),
      )

  -- The loops in their order: when they end well, the kernel's sets are the ones given.
  install_exact :
      (ms is : List Text) (s t : S)
      → All IsCanonical ms
      → install env (ms, is) s ≡ (ok tt, t)
      → (x : Text) → (macs t x ≡ has x ms) × (ips t x ≡ has x is)
  unfolding install
  install_exact ms is s t c h x =
      let unblock_macs = for_existing env (blocked_macs env) (unblock_unless env ms) in
      let unblock_ips = for_existing env (blocked_ips env) (unblock_ip_unless env is) in
      let block_ip = call_if (env.blocker.block_ip) in
      let (_, s1, h1, k1) =
        bind_ok (for_each ms (block_text env))
          (λ _. for_each is block_ip >> (unblock_macs >> unblock_ips)) h in
      let (_, s2, h2, k2) = bind_ok (for_each is block_ip) (λ _. unblock_macs >> unblock_ips) k1 in
      let (_, s3, h3, h4) = bind_ok unblock_macs (λ _. unblock_ips) k2 in
      let (m3, i3) = prune_macs ms s2 s3 h3 x in
      let (m4, i4) = prune_ips is s3 t h4 x in
      let m1 =
        for_each-changes macs (block_text env) put ms s s1 (All-map ms block_text-macs c) h1 x in
      let i1 =
        for_each-changes ips (block_text env) same ms s s1 (All-map ms block_text-ips c) h1 x in
      let m2 = for_each-changes macs block_ip same is s1 s2 (All-every is block_ip-macs) h2 x in
      let i2 = for_each-changes ips block_ip put is s1 s2 (All-every is block_ip-ips) h2 x in
      (
        m4
            ∙ rw (m3, m2 ∙ changes-same is x (macs s1 x), m1 ∙ changes-put ms x (macs s x))
                (ground arith),
        i4
            ∙ rw (i3, i2 ∙ changes-put is x (ips s1 x), i1 ∙ changes-same ms x (ips s x))
                (ground arith),
      )

  or_empty : (x : Text) (b : Bool) → (b || has x []) ≡ b
  unfolding has
  or_empty x b = ground arith

  reconcile-install :
      (ds : List Device) (s t : S)
      → env.devices.find_all s ≡ ok ds
      → reconcile env s ≡ (ok tt, t)
      → (r : List Text × List Text) × (desired env ds ([], []) s ≡ ok r)
        × (install env r s ≡ (ok tt, t))
  unfolding reconcile
  reconcile-install ds s t found h =
      let (ds', found', k) =
        ask_ok (env.devices.find_all) (λ l. ask (desired env l ([], [])) >>= install env) h in
      let same_devices : ds' ≡ ds = cc in
      let (r, e, done) = ask_ok (desired env ds' ([], [])) (install env) k in
      (r, rw same_devices at e, done)

  -- With a blocker that keeps the laws of IsBlocker, and known devices whose addresses are in
  -- normal form: when `reconcile` ends well, the kernel blocks the hardware address of exactly the
  -- blocked and validated devices of this network segment, and the IP address of exactly those
  -- behind a proxy, whatever it blocked before.
  pub reconcile_exact :
      (ds : List Device) (s t : S)
      → All (λ d. IsCanonical (d.mac.value)) ds
      → env.devices.find_all s ≡ ok ds
      → reconcile env s ≡ (ok tt, t)
      → (x : Text) → (macs t x ≡ any (asks_mac env s x) ds) × (ips t x ≡ any (asks_ip env s x) ds)
  unfolding reconcile
  reconcile_exact ds s t c found h x =
      let (r, e, k) = reconcile-install ds s t found h in
      let (m, i) = install_exact r.0 r.1 s t (desired-IsCanonical env ds s ([], []) r c tt e) k x in
      let (m', i') = desired-has env ds s ([], []) r x e in
      (
        m ∙ m' ∙ or_empty x (any (asks_mac env s x) ds),
        i ∙ i' ∙ or_empty x (any (asks_ip env s x) ds),
      )
