-- ===== src/Config/Proxies.antt =====
-- `parseTrustedProxies` of server/pkg/config/config.go, with the trust that its networks give in
-- server/internal/transport/http/handler/auth.go.
use text.Mathlib.TextLemmas.{append-ne-nil_of_right_ne-nil}
use mathlib.Core.Option.{some-injective}
use agent_events.Prelude.{
  String, ◌≡◌, ◌≢◌, refl, sym, ap, ◌∙◌, ◌⊎◌, inl, inr, ◌↔◌, true, Option, none, some, List, [], ◌∷◌,
  map, All, arith, Bool-cases, ◌==◌, eq_false_of_ne, ne_of_eq_false, eq_iff, any, ◌||◌, Bool,
}
use agent_events.Text.{◌^^◌, trim_space, split}
use agent_events.Text.Split.{comma-append, split-append, split_of_Lacks, Lacks}
use agent_events.Text.Trim.{
  IsTrimmed, StartsClean, EndsClean, trim_space_of_IsTrimmed, EndsClean-append, StartsClean-append,
}
use agent_events.Http.ClientIp.{Net, is_trusted_proxy}
use agent_events.Config.{
  Loaded, loaded, refused, network_of, prepend, first_network, parse_parts, parse_trusted_proxies,
}

-- The entries with a comma between each two of them.
abbrev pub join : List String → String
join [] = ""
join (entry ∷ []) = entry
join (entry ∷ (next ∷ entries)) = entry ^^ ("," ^^ join (next ∷ entries))

-- Some element has the property.
abbrev pub Any : {A : Type 0} → (A → Type 0) → List A → Type 0
Any P [] = ⊥
Any P (x ∷ xs) = P x ⊎ Any P xs

module _ (net : Net) where
  open net use {Ip, IpNet, contains}

  -- An entry that can stand between commas, and the network that it spells.
  abbrev pub Spells : String × IpNet → Type 0
  Spells (entry, network) =
      (entry ≢ "") × IsTrimmed entry × Lacks 0x2C entry × (network_of net entry ≡ some network)

  abbrev texts : List (String × IpNet) → List String
  texts entries = map (λ e. e.0) entries

  join-ne :
      (e : String × IpNet) (es : List (String × IpNet))
      → All Spells (e ∷ es)
      → join (texts (e ∷ es)) ≢ ""
  join-ne e [] (s, _) = s.0
  join-ne e (f ∷ fs) (s, more) =
      append-ne-nil_of_right_ne-nil e.0 (append-ne-nil_of_right_ne-nil "," (join-ne f fs more))

  join-EndsClean :
      (e : String × IpNet) (es : List (String × IpNet))
      → All Spells (e ∷ es)
      → EndsClean (join (texts (e ∷ es)))
  join-EndsClean e [] (s, _) = s.1.1
  join-EndsClean e (f ∷ fs) (s, more) =
      EndsClean-append e.0 ("," ^^ join (texts (f ∷ fs)))
        (append-ne-nil_of_right_ne-nil "," (join-ne f fs more))
        (EndsClean-append "," (join (texts (f ∷ fs))) (join-ne f fs more)
          (join-EndsClean f fs more))

  join-StartsClean :
      (e : String × IpNet) (es : List (String × IpNet))
      → All Spells (e ∷ es)
      → StartsClean (join (texts (e ∷ es)))
  join-StartsClean e [] (s, _) = s.1.0
  join-StartsClean e (f ∷ fs) (s, more) = StartsClean-append e.0 _ s.0 s.1.0

  parse_entry :
      (e : String × IpNet) (parts : List String)
      → Spells e
      → parse_parts net (e.0 ∷ parts) ≡ prepend net e.1 (parse_parts net parts)
  unfolding parse_parts
  parse_entry e parts s = rw (trim_space_of_IsTrimmed e.0 s.1, eq_false_of_ne _ _ s.0, s.3)

  parse_join :
      (e : String × IpNet) (es : List (String × IpNet))
      → All Spells (e ∷ es)
      → parse_parts net (split (join (texts (e ∷ es))) 0x2C) ≡ loaded (map (λ x. x.1) (e ∷ es))
  unfolding parse_parts
  parse_join e [] (s, _) = rw (split_of_Lacks e.0 0x2C s.2) (parse_entry e [] s)
  parse_join e (f ∷ fs) (s, more) =
      rw
        (
          comma-append (join (texts (f ∷ fs))),
          split-append e.0 (join (texts (f ∷ fs))) "," 0x2C refl,
          split_of_Lacks e.0 0x2C s.2,
        )
        (parse_entry e _ s ∙ ap (prepend net e.1) (parse_join f fs more))

  -- A list of entries, written with commas between them, is read back as their networks, if each is
  -- trimmed, not empty, without a comma, and spells its network.
  pub parse_trusted_proxies-join :
      (entries : List (String × IpNet))
      → All Spells entries
      → parse_trusted_proxies net (join (texts entries)) ≡ loaded (map (λ x. x.1) entries)
  unfolding parse_trusted_proxies trim_space
  parse_trusted_proxies-join [] spelled = refl
  parse_trusted_proxies-join (e ∷ es) spelled =
      let trimmed : IsTrimmed (join (texts (e ∷ es))) =
        (join-StartsClean e es spelled, join-EndsClean e es spelled) in
      rw (trim_space_of_IsTrimmed _ trimmed, eq_false_of_ne _ _ (join-ne e es spelled))
        (parse_join e es spelled)

  -- A part of the text that names a network with the address in it.
  abbrev pub Admits : Ip → String → Type 0
  Admits ip part =
      (trim_space part ≢ "")
      × ((network : IpNet) × (network_of net (trim_space part) ≡ some network)
          × (contains network ip ≡ true))

  -- the networks of the parts behind a first part
  tail_of :
      (entry : String) (o : Option IpNet) (r : Loaded (List IpNet)) (networks : List IpNet)
      → first_network net entry o r ≡ loaded networks
      → (network : IpNet) × (rest : List IpNet) × (o ≡ some network)
        × (r ≡ loaded rest)
        × (networks ≡ network ∷ rest)
  tail_of entry none r networks h = cc
  tail_of entry (some network) (loaded rest) networks h =
      (network, rest, refl, refl, ground (arith, h))
  tail_of entry (some network) (refused e) networks h = cc

  trusted_sound :
      (ip : Ip) (parts : List String) (networks : List IpNet)
      → parse_parts net parts ≡ loaded networks
      → is_trusted_proxy net ip networks ≡ true
      → Any (Admits ip) parts
  unfolding parse_parts is_trusted_proxy any
  trusted_sound ip [] networks h trusted =
      let e : [] ≡ networks = ground (arith, h) in cc (rw (← e) at trusted)
  trusted_sound ip (part ∷ parts) networks h trusted = elim (Bool-cases (trim_space part == "")) [
    | inl blank ↦ inr (trusted_sound ip parts networks (rw blank at h) trusted)
    | inr given ↦
        let (network, rest, named, tail, whole) =
          tail_of (trim_space part) _ _ networks (rw given at h) in
        elim (Bool-cases (contains network ip)) [
          | inl inside ↦ inl (ne_of_eq_false _ _ given, (network, named, inside))
          | inr outside ↦ inr (trusted_sound ip parts rest tail (rw (whole, outside) at trusted))
        ]
  ]

  later-of_blank :
      (ip : Ip) (part : String) (parts : List String)
      → (trim_space part == "") ≡ true
      → Any (Admits ip) (part ∷ parts)
      → Any (Admits ip) parts
  later-of_blank ip part parts blank (inl (ne, _)) = absurd (ne ((eq_iff _ _).0 blank))
  later-of_blank ip part parts blank (inr later) = later

  or_true : (b : Bool) {c : Bool} → c ≡ true → (b || c) ≡ true
  or_true b h = ground arith

  trusted_complete :
      (ip : Ip) (parts : List String) (networks : List IpNet)
      → parse_parts net parts ≡ loaded networks
      → Any (Admits ip) parts
      → is_trusted_proxy net ip networks ≡ true
  unfolding parse_parts is_trusted_proxy any
  trusted_complete ip [] networks h found = absurd found
  trusted_complete ip (part ∷ parts) networks h found = elim (Bool-cases (trim_space part == "")) [
    | inl blank ↦
        trusted_complete ip parts networks (rw blank at h)
          (later-of_blank ip part parts blank found)
    | inr given ↦
        let (network, rest, named, tail, whole) =
          tail_of (trim_space part) _ _ networks (rw given at h) in
        rw whole (elim found [
          | inl (ne, (n, also, inside)) ↦
              let same : n ≡ network = some-injective _ _ (sym also ∙ named) in
              rw (← same) (ground (arith, inside))
          | inr later ↦ or_true (contains network ip) (trusted_complete ip parts rest tail later)
        ])
  ]

  -- A blank text has one part, which names no network.
  parse_trusted_proxies-parts :
      (raw : String) → parse_trusted_proxies net raw ≡ parse_parts net (split (trim_space raw) 0x2C)
  unfolding parse_trusted_proxies parse_parts split trim_space
  parse_trusted_proxies-parts raw = elim (Bool-cases (trim_space raw == "")) [
    | inl blank ↦ rw ((eq_iff _ _).0 blank) refl
    | inr given ↦ rw given refl
  ]

  -- If the text of the trusted proxies is read, then an address is a trusted proxy exactly where
  -- some part of the text, between commas, names a network that contains it.
  pub trusted_iff :
      (raw : String) (networks : List IpNet) (ip : Ip)
      → parse_trusted_proxies net raw ≡ loaded networks
      → (is_trusted_proxy net ip networks ≡ true) ↔ Any (Admits ip) (split (trim_space raw) 0x2C)
  trusted_iff raw networks ip h =
      let parsed = rw (parse_trusted_proxies-parts raw) at h in
      (
        trusted_sound ip (split (trim_space raw) 0x2C) networks parsed,
        trusted_complete ip (split (trim_space raw) 0x2C) networks parsed,
      )
