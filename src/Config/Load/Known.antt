-- ===== src/Config/Load/Known.antt =====
-- No section and no key of a configuration file is passed over in silence (src/config.rs).
use addrsyncd.Base.{
  ℕ, ◌≡◌, refl, Bool, true, ◌&&◌, List, [], ◌∷◌, arith, some, if◌then◌else◌, Bool-cases, inl, inr,
  Result, ok, bind_ok, ◌>>=◌,
}
use addrsyncd.Base.Texts.{Text, codes, text_eq, text_mem, text_eq_sound}
use addrsyncd.Config.{ConfigError, Section, TomlTable, get}
use addrsyncd.Config.Take.{reject_unknown_keys_with_allowlist}
use addrsyncd.Config.Sections.{
  take_section, DaemonSection, FiltersSection, daemon_keys, log_keys, rule_keys, filters_keys,
  load_daemon, load_log, load_rule, load_filters,
}
use addrsyncd.Config.Load.{Host, Options, known_sections, check_sections, load_table}

-- The keys that a section may have.
unfoldable pub keys_of : Text → List Text
keys_of name =
    if text_eq name (codes "daemon")
    then daemon_keys
    else if text_eq name (codes "log")
    then log_keys
    else if text_eq name (codes "rule")
    then rule_keys
    else if text_eq name (codes "filters")
    then filters_keys
    else []

-- Whether the keys of a section stand in a list.
unfoldable pub keys_in : List Text → Section → Bool
unfolding text_mem
keys_in names [] = true
keys_in names ((key, value) ∷ section) = text_mem key names && keys_in names section

allowlist-keys_in :
    (section : Section) (name : Text) (names : List Text) (u : Unit {0})
    → reject_unknown_keys_with_allowlist section name names ≡ ok u
    → keys_in names section ≡ true
unfolding reject_unknown_keys_with_allowlist keys_in
allowlist-keys_in [] name names u e = refl
allowlist-keys_in ((key, value) ∷ section) name names u e =
    ground (arith, allowlist-keys_in section name names u)

take_section-get :
    (table : TomlTable) (name : Text) (s t : Section)
    → get name table ≡ some s
    → take_section table name ≡ ok t
    → t ≡ s
unfolding take_section
take_section-get table name s t h e = ground arith

-- What the four sections have in common: taken, then checked.
checked :
    {A : Type 0} (table : TomlTable) (name : Text) (names : List Text) (s : Section)
    (next : Section → Unit {0} → Result ConfigError A) (a : A)
    → get name table ≡ some s
    → take_section table name
        >>= (λ s0. reject_unknown_keys_with_allowlist s0 name names >>= next s0)
      ≡ ok a
    → keys_in names s ≡ true
checked table name names s next a h e =
    let (s0, e0, k0) = bind_ok (take_section table name) _ a e in
    let (u, e1, k1) = bind_ok (reject_unknown_keys_with_allowlist s0 name names) _ a k0 in
    let same : s0 ≡ s = take_section-get table name s s0 h e0 in
    rw (← same) (allowlist-keys_in s0 name names u e1)

get_known :
    (table : TomlTable) (name : Text) (s : Section) (u : Unit {0})
    → get name table ≡ some s
    → check_sections table ≡ ok u
    → text_mem name known_sections ≡ true
unfolding get check_sections
get_known [] name s u h e = cc
get_known ((j, v) ∷ table) name s u h e = elim (Bool-cases (text_eq j name)) [
  | inl same ↦ let here : j ≡ name = text_eq_sound j name same in rw (← here) (ground arith)
  | inr other ↦ get_known table name s u (ground arith) (ground arith)
]

section_known :
    (table : TomlTable) (name : Text) (s : Section) (d : DaemonSection) (log : Text × Text)
    (rule : ℕ × ℕ) (f : FiltersSection)
    → load_daemon table ≡ ok d
    → load_log table ≡ ok log
    → load_rule table ≡ ok rule
    → load_filters table ≡ ok f
    → get name table ≡ some s
    → text_mem name known_sections ≡ true
    → keys_in (keys_of name) s ≡ true
unfolding keys_of load_daemon load_log load_rule load_filters text_mem text_eq
section_known table name s d log rule f e1 e2 e3 e4 h m =
    elim (Bool-cases (text_eq (codes "daemon") name)) [
      | inl same ↦
          let here = text_eq_sound (codes "daemon") name same in
          rw (← here) (checked table (codes "daemon") daemon_keys s _ d (rw here h) e1)
      | inr not_daemon ↦ elim (Bool-cases (text_eq (codes "log") name)) [
        | inl same ↦
            let here = text_eq_sound (codes "log") name same in
            rw (← here) (checked table (codes "log") log_keys s _ log (rw here h) e2)
        | inr not_log ↦ elim (Bool-cases (text_eq (codes "rule") name)) [
          | inl same ↦
              let here = text_eq_sound (codes "rule") name same in
              rw (← here) (checked table (codes "rule") rule_keys s _ rule (rw here h) e3)
          | inr not_rule ↦
              let here = text_eq_sound (codes "filters") name (ground arith) in
              rw (← here) (checked table (codes "filters") filters_keys s _ f (rw here h) e4)
        ]
      ]
    ]

module _ (host : Host) where
  -- A table that loads has no section but the four, and no section has a key but its own.
  pub load_table-keys_in :
      (dir cfg name : Text) (table : TomlTable) (s : Section) (o : Options)
      → load_table host dir cfg table ≡ ok o
      → get name table ≡ some s
      → (text_mem name known_sections ≡ true) × (keys_in (keys_of name) s ≡ true)
  unfolding load_table
  load_table-keys_in dir cfg name table s o e h =
      let (u, e0, k0) = bind_ok (check_sections table) _ o e in
      let (d, e1, k1) = bind_ok (load_daemon table) _ o k0 in
      let (log, e2, k2) = bind_ok (load_log table) _ o k1 in
      let (rule, e3, k3) = bind_ok (load_rule table) _ o k2 in
      let (f, e4, k4) = bind_ok (load_filters table) _ o k3 in
      let known = get_known table name s u h e0 in
      (known, section_known table name s d log rule f e1 e2 e3 e4 h known)
