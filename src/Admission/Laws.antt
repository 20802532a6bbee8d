-- ===== src/Admission/Laws.antt =====
-- Which requests the policy admits.
use jwtmint.Prelude.{
  String, ◌≡◌, ◌↔◌, ◌⊎◌, inl, inr, refl, sym, ◌∙◌, In, Bool, true, false, none, some, List, [], ◌∷◌,
  is_empty, contains, All, if◌then◌else◌, arith, eq_iff, Bool-cases,
}
use jwtmint.Text.{is_blank}
use jwtmint.Errors.{Verdict}
use jwtmint.Claims.Checks.{and_then}
use jwtmint.Claims.Checks.Laws.{and_then_iff}
use jwtmint.Admission.Entries.{Trimmed, contains_iff, contains_string_lem, entries_iff, member_iff}
use jwtmint.Admission.{
  UserInfo, Spec, SelfOnlyPolicy, allow_any, string_set, contains_string, all_in,
  check_allowed_list, keys_of, check_allowed_keys, is_admin, foreign_subject, allow,
}

-- What a category of the request may ask for: nothing, anything if the list says so, or entries of
-- the list.
abbrev pub Permits : List String → List String → Type 0
Permits allowed requested =
    (is_empty requested ≡ true) ⊎ In allow_any allowed ⊎ All (Trimmed allowed) requested

-- A listed user, or a member of a listed group.
abbrev pub Administrator : SelfOnlyPolicy → UserInfo → Type 0
Administrator p requester =
    In requester.username p.admin_users
    ⊎ ((g : String) × In g p.admin_groups × Trimmed requester.groups g)

-- What a requester that is no administrator may ask for.
pub record SelfOnly {J : Type 0} (p : SelfOnlyPolicy) (requester : UserInfo) (spec : Spec J)
    : Type 0 where
  pub own_subject : (is_blank spec.subject ≡ true) ⊎ (spec.subject ≡ requester.username)
  pub own_groups : All (Trimmed requester.groups) spec.groups
  pub audiences : Permits p.allowed_audiences spec.audience
  pub entitlements : Permits p.allowed_entitlements spec.entitlements
  pub roles : Permits p.allowed_roles spec.roles
  pub extra_claims : Permits p.allowed_extra_claim_keys (keys_of spec.extra_claims)

check_allowed_list_iff :
    (requested allowed : List String)
    → (check_allowed_list requested allowed ≡ none) ↔ Permits allowed requested
unfolding check_allowed_list
check_allowed_list_iff [] allowed = (λ _. inl refl, λ _. refl)
check_allowed_list_iff (r ∷ rs) [] =
    unfold contains_string in
    (
      λ h. cc,
      elim [
        | inl empty ↦ cc
        | inr (inl listed) ↦ absurd listed
        | inr (inr ((_, (e, h, _)), _)) ↦ absurd h
      ],
    )
check_allowed_list_iff (r ∷ rs) (a ∷ more) =
    let any = contains_iff (a ∷ more) allow_any in
    let entries = entries_iff (a ∷ more) (r ∷ rs) in
    let same = contains_string_lem (a ∷ more) allow_any in
    elim (Bool-cases (contains (a ∷ more) allow_any)) [
      | inl t ↦ (λ _. inr (inl (any.0 t)), λ _. rw (same, t) refl)
      | inr f ↦ (
        λ h. inr (inr (entries.0 (rw (same, f) at h))),
        elim [
          | inl empty ↦ cc
          | inr (inl listed) ↦ let clash : false ≡ true = sym f ∙ any.1 listed in cc
          | inr (inr all) ↦ rw (same, f) (entries.1 all)
        ],
      )
    ]

own_subject_iff :
    (requester : UserInfo) (subject : String)
    → (foreign_subject requester subject ≡ false)
      ↔ ((is_blank subject ≡ true) ⊎ (subject ≡ requester.username))
own_subject_iff requester subject = ground (arith, eq_iff subject requester.username)

-- The checks in a row, each against what it stands for.
checks_iff :
    {J : Type 0} (p : SelfOnlyPolicy) (requester : UserInfo) (spec : Spec J)
    → (and_then (all_in (string_set requester.groups) spec.groups) (
          and_then (check_allowed_list spec.audience p.allowed_audiences) (
            and_then (check_allowed_list spec.entitlements p.allowed_entitlements) (
              and_then
                (check_allowed_list spec.roles p.allowed_roles)
                (check_allowed_keys spec.extra_claims p.allowed_extra_claim_keys))))
        ≡ none)
      ↔ (All (Trimmed requester.groups) spec.groups
          × Permits p.allowed_audiences spec.audience
          × Permits p.allowed_entitlements spec.entitlements
          × Permits p.allowed_roles spec.roles
          × Permits p.allowed_extra_claim_keys (keys_of spec.extra_claims))
unfolding check_allowed_keys
checks_iff p requester spec =
    let g = entries_iff requester.groups spec.groups in
    let a = check_allowed_list_iff spec.audience p.allowed_audiences in
    let e = check_allowed_list_iff spec.entitlements p.allowed_entitlements in
    let r = check_allowed_list_iff spec.roles p.allowed_roles in
    let x = check_allowed_list_iff (keys_of spec.extra_claims) p.allowed_extra_claim_keys in
    (
      λ h.
          let (hg, h1) = (and_then_iff _ _).0 h in
          let (ha, h2) = (and_then_iff _ _).0 h1 in
          let (he, h3) = (and_then_iff _ _).0 h2 in
          let (hr, hx) = (and_then_iff _ _).0 h3 in (g.0 hg, a.0 ha, e.0 he, r.0 hr, x.0 hx),
      λ (hg, ha, he, hr, hx). (and_then_iff _ _).1 (
        g.1 hg,
        (and_then_iff _ _).1
            (a.1 ha, (and_then_iff _ _).1 (e.1 he, (and_then_iff _ _).1 (r.1 hr, x.1 hx))),
      ),
    )

gate_iff :
    (admin foreign : Bool) (v : Verdict)
    → ((if admin then none else if foreign then some [] else v) ≡ none)
      ↔ ((admin ≡ true) ⊎ ((foreign ≡ false) × (v ≡ none)))
gate_iff admin foreign v = ground arith

-- isAdmin holds exactly of an administrator.
is_admin_iff :
    (p : SelfOnlyPolicy) (requester : UserInfo)
    → (is_admin p requester ≡ true) ↔ Administrator p requester
unfolding is_admin
is_admin_iff p requester =
    let users = contains_iff p.admin_users requester.username in
    let same = contains_string_lem p.admin_users requester.username in
    elim (Bool-cases (contains p.admin_users requester.username)) [
      | inl t ↦ (λ _. inl (users.0 t), λ _. rw (same, t) refl)
      | inr f ↦
          let groups = member_iff requester.groups p.admin_groups in
          (
            λ h. inr (groups.0 (rw (same, f) at h)),
            elim [
              | inl listed ↦ let clash : false ≡ true = sym f ∙ users.1 listed in cc
              | inr member ↦ rw (same, f) (groups.1 member)
            ],
          )
    ]

-- Allow admits a request exactly if the requester is listed as an administrator or has a group,
-- white space around it cut off, that is listed as an administrators' group, or the subject is
-- empty or the requester's name, the groups are among the requester's, white space around those
-- cut off, and in each category the request asks for nothing, the allow-list has the wildcard, or
-- all that is asked for is on the list, white space around its entries cut off.
pub allow_iff :
    {J : Type 0} (p : SelfOnlyPolicy) (requester : UserInfo) (spec : Spec J)
    → (allow p requester (some spec) ≡ none)
      ↔ (Administrator p requester ⊎ SelfOnly p requester spec)
unfolding allow
allow_iff p requester spec =
    let is_one = is_admin_iff p requester in
    let gate = gate_iff (is_admin p requester) (foreign_subject requester spec.subject) _ in
    let own = own_subject_iff requester spec.subject in
    let checks = checks_iff p requester spec in
    (
      λ h. elim (gate.0 h) [
        | inl admin ↦ inl (is_one.0 admin)
        | inr (f, v) ↦
            let (g, a, e, r, x) = checks.0 v in
            inr (record {
              own_subject = own.0 f;
              own_groups = g;
              audiences = a;
              entitlements = e;
              roles = r;
              extra_claims = x;
            })
      ],
      elim [
        | inl admin ↦ gate.1 (inl (is_one.1 admin))
        | inr s ↦ gate.1 (
            inr (
              own.1 s.own_subject,
              checks.1 (s.own_groups, s.audiences, s.entitlements, s.roles, s.extra_claims),
            ))
      ],
    )
