-- ===== src/Poller/Repeat.antt =====
-- A head that deploys/poller.py has met is met again without another manifest.
use deploy_hub.Prelude.{
  ℕ, suc, String, ◌≡◌, refl, ap, ◌∙◌, Bool, true, false, not, ◌&&◌, Option, none, some, List, [],
  ◌∷◌, ◌++◌, ◌==◌, ltb, arith, str_eq, str_eq_iff, Option-cases, Bool-cases, inl, inr,
}
use deploy_hub.Poller.{
  Poller, Site, Manifest, Deployment, most, enqueue, queued_for_sha, park, send, delay, promote,
  promote_waiting, meet_head, poll_head, latest_manifest, last_deployed_sha, poll_site, is_confirm,
  is_windowed,
}

abbrev is_under : ℕ → Option Manifest → Bool
is_under n none = true
is_under n (some y) = ltb y.version n

version_of : Manifest → ℕ
version_of m = m.version

-- A row of a higher version at the end of the table is the latest.
latest-snoc :
    (p : Manifest → Bool) (x : Manifest) (xs : List Manifest)
    → is_under x.version (most (λ (m : Manifest). m.version) p xs) ≡ true
    → p x ≡ true
    → most (λ (m : Manifest). m.version) p (xs ++ x ∷ []) ≡ some x
latest-snoc p x [] u h = ground (arith, h)
latest-snoc p x (z ∷ xs) u h =
    let rest = most (λ (m : Manifest). m.version) p xs in
    elim (Option-cases rest) [
      | inl e ↦ ground (arith, e, u, h, latest-snoc p x xs)
      | inr (y, e) ↦ ground (arith, e, u, h, latest-snoc p x xs)
    ]

latest_manifest-enqueue :
    (site : Site) (sha : String) (latest : Manifest) (s : Poller)
    → latest_manifest site s ≡ some latest
    → latest_manifest site (enqueue site sha latest s).1
      ≡ some (record {
        pk = s.next_manifest;
        site = site.pk;
        version = suc latest.version;
        git_sha = sha;
        rest = latest.rest;
      })
unfolding latest_manifest enqueue
latest_manifest-enqueue site sha latest s e =
    let m : Manifest = record {
      pk = s.next_manifest;
      site = site.pk;
      version = suc latest.version;
      git_sha = sha;
      rest = latest.rest;
    } in
    latest-snoc (λ (x : Manifest). x.site == site.pk) m s.manifests (rw (e) (ground arith))
      (ground arith)

-- A promotion writes no manifest.
promote-manifests :
    (in_window : String → ℕ → Bool) (now : ℕ) (d : Option Deployment) (s : Poller)
    → (promote in_window now d s).manifests ≡ s.manifests
unfolding promote delay
promote-manifests in_window now none s = refl
promote-manifests in_window now (some d) s = ground arith

promote_waiting-manifests :
    (in_window : String → ℕ → Bool) (now : ℕ) (site : Site) (sha : String) (s : Poller)
    → (promote_waiting in_window now site sha s).manifests ≡ s.manifests
unfolding promote_waiting
promote_waiting-manifests in_window now site sha s =
    ground (arith, promote-manifests in_window now (queued_for_sha site sha s) s)

-- A head that the latest manifest has brings no other.
poll_head-known :
    (in_window : String → ℕ → Bool) (now : ℕ) (site : Site) (sha : String) (latest : Manifest)
    (s : Poller)
    → str_eq sha latest.git_sha ≡ true
    → (poll_head in_window now site sha (some latest) s).manifests ≡ s.manifests
unfolding poll_head
poll_head-known in_window now site sha latest s same =
    ground (arith, same, promote_waiting-manifests in_window now site sha s)

poll_head-confirm :
    (in_window : String → ℕ → Bool) (now : ℕ) (site : Site) (sha : String)
    (latest : Option Manifest) (s : Poller)
    → is_confirm site.deploy_policy ≡ true
    → (poll_head in_window now site sha latest s).manifests ≡ s.manifests
unfolding poll_head meet_head
poll_head-confirm in_window now site sha none s c = refl
poll_head-confirm in_window now site sha (some latest) s c =
    ground (arith, c, promote_waiting-manifests in_window now site sha s)

poll_head-deployed :
    (in_window : String → ℕ → Bool) (now : ℕ) (site : Site) (sha : String)
    (latest : Option Manifest) (s : Poller)
    → str_eq sha (last_deployed_sha site s) ≡ true
    → poll_head in_window now site sha latest s ≡ s
unfolding poll_head
poll_head-deployed in_window now site sha none s c = refl
poll_head-deployed in_window now site sha (some latest) s c = rw (poll_head, c) refl

-- A parked and a sent deployment came with the same manifests.
park-latest :
    (site : Site) (r : ℕ × Poller)
    → (latest_manifest site (park r) ≡ latest_manifest site r.1)
      × (latest_manifest site (send r) ≡ latest_manifest site r.1)
unfolding park send delay latest_manifest
park-latest site r = (refl, refl)

promoted-latest :
    (in_window : String → ℕ → Bool) (now : ℕ) (site : Site) (sha : String) (s : Poller)
    → latest_manifest site (promote_waiting in_window now site sha s) ≡ latest_manifest site s
unfolding latest_manifest
promoted-latest in_window now site sha s =
    rw (promote_waiting-manifests in_window now site sha s) refl

module _ (in_window later_window : String → ℕ → Bool) (now later : ℕ) (site : Site)
    (sha : String) where
  known_again :
      (m : Manifest) (s : Poller)
      → latest_manifest site s ≡ some m
      → str_eq sha m.git_sha ≡ true
      → (poll_head later_window later site sha (latest_manifest site s) s).manifests ≡ s.manifests
  known_again m s e same = rw (e) (poll_head-known later_window later site sha m s same)

  meet_again :
      (latest : Manifest) (s : Poller)
      → latest_manifest site s ≡ some latest
      → (poll_head later_window later site sha
          (latest_manifest site (meet_head in_window now site sha latest s))
          (meet_head in_window now site sha latest s)).manifests
        ≡ (meet_head in_window now site sha latest s).manifests
  unfolding meet_head
  meet_again latest s e =
      let made = enqueue site sha latest s in
      let m : Manifest = record {
        pk = s.next_manifest;
        site = site.pk;
        version = suc latest.version;
        git_sha = sha;
        rest = latest.rest;
      } in
      let newest = latest_manifest-enqueue site sha latest s e in
      let same : str_eq sha sha ≡ true = ground (arith, str_eq_iff sha sha) in
      elim (Bool-cases (is_confirm site.deploy_policy)) [
        | inl c ↦
            let s1 = meet_head in_window now site sha latest s in
            poll_head-confirm later_window later site sha (latest_manifest site s1) s1 c
        | inr c ↦
            elim (Bool-cases
              (is_windowed site.deploy_policy && not (in_window site.deploy_window_cron now))) [
                | inl p ↦
                    rw (meet_head, c, p)
                      (known_again m (park made) ((park-latest site made).0 ∙ newest) same)
                | inr p ↦
                    rw (meet_head, c, p)
                      (known_again m (send made) ((park-latest site made).1 ∙ newest) same)
              ]
      ]

  -- The head met for a second time.
  head_again :
      (latest : Option Manifest) (s : Poller)
      → latest_manifest site s ≡ latest
      → (poll_head later_window later site sha
          (latest_manifest site (poll_head in_window now site sha latest s))
          (poll_head in_window now site sha latest s)).manifests
        ≡ (poll_head in_window now site sha latest s).manifests
  unfolding poll_head
  head_again none s e = rw (e) refl
  head_again (some latest) s e = elim (Bool-cases (str_eq sha (last_deployed_sha site s))) [
    | inl a ↦
        rw (poll_head, a)
          (ap (λ (t : Poller). t.manifests)
            (poll_head-deployed later_window later site sha (latest_manifest site s) s a))
    | inr a ↦ elim (Bool-cases (str_eq sha latest.git_sha)) [
      | inl b ↦
          let s1 = promote_waiting in_window now site sha s in
          rw (poll_head, a, b, promoted-latest in_window now site sha s, e)
            (poll_head-known later_window later site sha latest s1 b)
      | inr b ↦ rw (poll_head, a, b) (meet_again latest s e)
    ]
  ]

module _ (in_window : String → ℕ → Bool) (now : ℕ) (blocked : String → Option String)
    (ls_remote : String → String → String) (site : Site) (s : Poller) where
  blocked-manifests :
      (code : String)
      → blocked site.git_url ≡ some code
      → (poll_site in_window now blocked ls_remote site s).manifests ≡ s.manifests
  unfolding poll_site
  blocked-manifests code b = rw (poll_site, b) refl

  module _ (b : blocked site.git_url ≡ none) where
    no_head :
        str_eq (ls_remote site.git_url site.git_ref) "" ≡ true
        → poll_site in_window now blocked ls_remote site s ≡ s
    unfolding poll_site
    no_head e = rw (poll_site, b, e) refl

    met_head :
        str_eq (ls_remote site.git_url site.git_ref) "" ≡ false
        → poll_site in_window now blocked ls_remote site s
          ≡ poll_head in_window now site
              (ls_remote site.git_url site.git_ref)
              (latest_manifest site s)
              s
    unfolding poll_site
    met_head e = rw (poll_site, b, e) refl

-- When a site is polled again with the same head, at whatever time and whatever the window says, the
-- second poll makes no manifest.
pub poll_site_again :
    (in_window later_window : String → ℕ → Bool) (now later : ℕ) (blocked : String → Option String)
    (ls_remote : String → String → String) (site : Site) (s : Poller)
    → (poll_site later_window later blocked ls_remote site
        (poll_site in_window now blocked ls_remote site s)).manifests
      ≡ (poll_site in_window now blocked ls_remote site s).manifests
poll_site_again in_window later_window now later blocked ls_remote site s =
    let sha = ls_remote site.git_url site.git_ref in
    let s1 = poll_site in_window now blocked ls_remote site s in
    elim (Option-cases (blocked site.git_url)) [
      | inr (code, b) ↦ blocked-manifests later_window later blocked ls_remote site s1 code b
      | inl b ↦ elim (Bool-cases (str_eq sha "")) [
        | inl e ↦
            ap (λ (t : Poller). t.manifests)
              (no_head later_window later blocked ls_remote site s1 b e)
        | inr e ↦ rw (met_head in_window now blocked ls_remote site s b e) (
            rw
              (met_head later_window later blocked ls_remote site
                (poll_head in_window now site sha (latest_manifest site s) s) b e)
              (head_again in_window later_window now later site sha (latest_manifest site s) s
                refl))
      ]
    ]
