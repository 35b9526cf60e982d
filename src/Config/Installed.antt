-- ===== src/Config/Installed.antt =====
-- The policies of a document, and the domains that they are for.
use recordlane.Base.{
  Bool, ℕ, suc, String, ◌≡◌, refl, subst, inl, inr, true, false, none, some, some-eq, List, [], ◌∷◌,
  ◌++◌, arith, str_eq, Bool-cases, Option-cases,
}
use recordlane.Http.{ok}
use recordlane.Policy.{CompiledPolicy}
use recordlane.Review.{Domain, change_where}
use recordlane.Config.{
  Document, domain_pack, domains_mapping, preview, other_document, Settings, Compiler,
}
use recordlane.Config.Snapshot.{Snapshot}
use recordlane.Config.Drafts.{policy_for, configuration_policies, mapped_policies, find_domain}
use recordlane.Config.Approval.{install, set_definition, new_job}

-- A domain is there after the definition of one is set.
find_domain-set :
    {F : Type 0} (key k : String) (p : CompiledPolicy F) (domains : List (Domain F)) (d : Domain F)
    → find_domain key domains ≡ some d
    → (e : Domain F) × (find_domain key
          (change_where (λ d. str_eq d.key k) (λ d. record d { definition = p }) domains)
        ≡ some e)
find_domain-set key k p [] d h = ground arith
find_domain-set key k p (c ∷ rest) d h = elim (Bool-cases (str_eq c.key k)) [
  | inl q ↦ elim (Bool-cases (str_eq c.key key)) [
    | inl r ↦ rw (q, r) (record c { definition = p }, refl)
    | inr r ↦ rw (q, r) (find_domain-set key k p rest d (rw r at h))
  ]
  | inr q ↦ elim (Bool-cases (str_eq c.key key)) [
    | inl r ↦ rw (q, r) (c, refl)
    | inr r ↦ rw (q, r) (find_domain-set key k p rest d (rw r at h))
  ]
]

-- Every policy's domain is there.
abbrev pub have_domains : {F : Type 0} → List (Domain F) → List (String × CompiledPolicy F) → Bool
have_domains domains [] = true
have_domains domains ((key, p) ∷ rest) =
    let later = have_domains domains rest in
    elim (find_domain key domains) [ none ↦ false | some _ ↦ later ]

module _ {D F : Type 0} (compiler : Compiler D F) (definition_hash : CompiledPolicy F → String)
    (hash : Snapshot → String) (by : String) where
  have_domains-set :
      (k : String) (p : CompiledPolicy F) (domains : List (Domain F))
      (policies : List (String × CompiledPolicy F))
      → have_domains domains policies ≡ true
      → have_domains (set_definition compiler definition_hash hash by k p domains) policies ≡ true
  have_domains-set k p domains [] there = refl
  have_domains-set k p domains ((key, q) ∷ rest) there =
      elim (Option-cases (find_domain key domains)) [
        | inl n ↦ let h : false ≡ true = rw (have_domains, n) at there in ground arith
        | inr (d, found) ↦
            let (e, still) = find_domain-set key k p domains d found in
            rw (have_domains, still)
              (have_domains-set k p domains rest (rw (have_domains, found) at there))
      ]

  one_policy-have_domains :
      (domains : List (Domain F)) (key : String) (d : Domain F) (definition : D)
      (policies : List (String × CompiledPolicy F))
      → find_domain key domains ≡ some d
      → policy_for compiler key definition ≡ some policies
      → have_domains domains policies ≡ true
  one_policy-have_domains domains key d definition policies found e =
      elim (Option-cases (compiler.compile definition)) [
        | inl n ↦ let h : none ≡ some policies = rw (policy_for, n) at e in ground arith
        | inr (p, compiled) ↦
            subst (λ ps. have_domains domains ps ≡ true) (some-eq (rw (policy_for, compiled) at e))
              (rw (have_domains, found) refl)
      ]

  mapped_policies-have_domains :
      (domains : List (Domain F)) (entries : List (String × D))
      (policies : List (String × CompiledPolicy F))
      → mapped_policies compiler domains entries ≡ some policies
      → have_domains domains policies ≡ true
  unfolding mapped_policies
  mapped_policies-have_domains domains [] policies e =
      subst (λ ps. have_domains domains ps ≡ true) (some-eq e) refl
  mapped_policies-have_domains domains ((key, definition) ∷ rest) policies e =
      elim (Option-cases (find_domain key domains)) [
        | inl n ↦ let h : none ≡ some policies = rw (mapped_policies, n) at e in ground arith
        | inr (d, found) ↦ elim (Option-cases (compiler.compile definition)) [
          | inl n ↦
              let h : none ≡ some policies = rw (mapped_policies, found, n) at e in ground arith
          | inr (p, compiled) ↦ elim (Option-cases (mapped_policies compiler domains rest)) [
            | inl n ↦
                let h : none ≡ some policies = rw (mapped_policies, found, compiled, n) at e in
                ground arith
            | inr (ps, others) ↦
                subst (λ ps. have_domains domains ps ≡ true)
                  (some-eq (rw (mapped_policies, found, compiled, others) at e))
                  (rw (have_domains, found) (mapped_policies-have_domains domains rest ps others))
          ]
        ]
      ]

  -- The policies of a document are of domains that are there.
  pub configuration_policies-have_domains :
      (domains : List (Domain F)) (document : Document D)
      (policies : List (String × CompiledPolicy F))
      → configuration_policies compiler domains document ≡ some policies
      → have_domains domains policies ≡ true
  unfolding configuration_policies
  configuration_policies-have_domains domains (domain_pack name definition) policies e =
      elim (Option-cases (find_domain name domains)) [
        | inl n ↦ let h : none ≡ some policies = rw (configuration_policies, n) at e in ground arith
        | inr (d, found) ↦
            one_policy-have_domains domains name d definition policies found
              (rw (configuration_policies, found) at e)
      ]
  configuration_policies-have_domains domains (domains_mapping entries) policies e =
      mapped_policies-have_domains domains entries policies e
  configuration_policies-have_domains domains (preview settings) policies e =
      elim (Option-cases (find_domain "supplier" domains)) [
        | inl n ↦ let h : none ≡ some policies = rw (configuration_policies, n) at e in ground arith
        | inr (d, found) ↦
            one_policy-have_domains domains "supplier" d (compiler.adapt settings d.definition)
              policies found (rw (configuration_policies, found) at e)
      ]
  configuration_policies-have_domains domains other_document policies e = ground (arith, e)

  -- The definitions of domains that are there are installed.
  pub install-ok :
      (config_id : ℕ) (policies : List (String × CompiledPolicy F)) (s : Settings D F)
      → have_domains s.store.domains policies ≡ true
      → (t : Settings D F) × (install compiler definition_hash hash by config_id policies s ≡ ok t)
        × (t.configs ≡ s.configs)
  unfolding install
  install-ok config_id [] s there = (s, refl, refl)
  install-ok config_id ((key, p) ∷ rest) s there =
      let next : Settings D F = record s {
        store = record s.store {
          next = suc s.store.next;
          domains = set_definition compiler definition_hash hash by key p s.store.domains;
        };
        jobs = s.jobs ++ new_job compiler definition_hash hash by s.store.next config_id key p ∷ [];
      } in
      elim (Option-cases (find_domain key s.store.domains)) [
        | inl n ↦ let h : false ≡ true = rw (have_domains, n) at there in ground arith
        | inr (d, found) ↦
            let (t, done, same) =
              install-ok config_id rest next
                (have_domains-set key p s.store.domains rest (rw (have_domains, found) at there)) in
            (t, rw (install, found) done, same)
      ]
