-- ===== src/Framework/ExternalLinks/Bare.antt =====
-- The values that `normalize` emits.
use mangarr_gateway.Prelude.{
  All, Bool, Bool-cases, In, Option, Option-cases, String, [], arith, false, inl, inr, none, refl,
  some, string_eq, subst, sym, true, ◌++◌, ◌==◌, ◌||◌, ◌∷◌, ◌≡◌, ◌≢◌,
}
use mangarr_gateway.Prelude.Dict
use mangarr_gateway.Prelude.Dict.{Dict}
use mangarr_gateway.Package.Text.{Text}
use mangarr_gateway.Framework.ExternalLinks.{
  Pattern, Extractor, SourceMap, source_maps, starts_url, contains_url, accept, put_value, if_any,
  extract, emit, collect, links_of, normalize,
}

or_true : (b c : Bool) → c ≡ true → (b || c) ≡ true
or_true b c h = ground (arith, h)

contains_url-append : (a s : Text) → contains_url s ≡ true → contains_url (a ++ s) ≡ true
unfolding contains_url
contains_url-append [] s h = h
contains_url-append (c ∷ a) s h =
    or_true (starts_url (c ∷ (a ++ s))) (contains_url (a ++ s)) (contains_url-append a s h)

-- "http://" and "https://"
abbrev pub http_scheme : Text
http_scheme = 104 ∷ 116 ∷ 116 ∷ 112 ∷ 58 ∷ 47 ∷ 47 ∷ []

abbrev pub https_scheme : Text
https_scheme = 104 ∷ 116 ∷ 116 ∷ 112 ∷ 115 ∷ 58 ∷ 47 ∷ 47 ∷ []

contains_url-http : (b : Text) → contains_url (http_scheme ++ b) ≡ true
unfolding contains_url starts_url
contains_url-http b = refl

contains_url-https : (b : Text) → contains_url (https_scheme ++ b) ≡ true
unfolding contains_url starts_url
contains_url-https b = refl

accept-some :
    (o : Option Text) (value : Text)
    → accept o ≡ some value
    → (o ≡ some value) × (contains_url value ≡ false)
unfolding accept
accept-some none value h = absurd (ground (arith, h))
accept-some (some []) value h = absurd (ground (arith, h))
accept-some (some (c ∷ s)) value h = elim (Bool-cases (contains_url (c ∷ s))) [
  | inl y ↦ absurd (ground (arith, y, h))
  | inr n ↦
      let e : some (c ∷ s) ≡ some value = ground (arith, n, h) in
      (
        e,
        subst (λ (o : Option Text). elim o [ none ↦ false | some v ↦ contains_url v ] ≡ false) e n,
      )
]

module _ (search : Pattern → Text → Option Text) (raw : Dict String (Option Text)) where
  -- From an entry of the map and the raw value under its key.
  abbrev pub IsFrom : SourceMap → String → Text → Type 0
  IsFrom source_map canonical value =
      (raw_key : String) × (e : Extractor) × (given : Option Text) × In (raw_key, canonical, e)
        source_map
      × (Dict.get raw raw_key ≡ some given)
      × (extract search e given ≡ some value)

  abbrev IsBare : SourceMap → Dict String Text → Type 0
  IsBare source_map d =
      (canonical : String) (value : Text)
      → Dict.get d canonical ≡ some value
      → IsFrom source_map canonical value × (contains_url value ≡ false)

  emit-some :
      (source_map : SourceMap) (raw_key canonical : String) (e : Extractor) (value : Text)
      → In (raw_key, canonical, e) source_map
      → emit search raw raw_key e ≡ some value
      → IsFrom source_map canonical value × (contains_url value ≡ false)
  unfolding emit
  emit-some source_map raw_key canonical e value i h = elim (Option-cases (Dict.get raw raw_key)) [
    | inl n ↦ absurd (ground (arith, n, h))
    | inr (given, g) ↦
        let a : accept (extract search e given) ≡ some value = ground (arith, g, h) in
        let (x, u) = accept-some (extract search e given) value a in
        ((raw_key, e, given, i, g, x), u)
  ]

  put-IsBare :
      (source_map : SourceMap) (canonical : String) (value : Text) (d : Dict String Text)
      → IsFrom source_map canonical value × (contains_url value ≡ false)
      → IsBare source_map d
      → IsBare source_map (Dict.put d canonical value)
  put-IsBare source_map canonical value d new b k v h = elim (Bool-cases (canonical == k)) [
    | inl y ↦
        let same : canonical ≡ k = ground (arith, y, string_eq.beq_iff canonical k) in
        let e : some value ≡ some v = ground (arith, y, h, Dict.get-put d canonical value k) in
        subst (λ j. IsFrom source_map j v × (contains_url v ≡ false)) same
          (subst
            (λ (o : Option Text). elim o [
              | none ↦ ⊥
              | some w ↦ IsFrom source_map canonical w × (contains_url w ≡ false)
            ])
            e new)
    | inr n ↦ b k v (ground (arith, n, h, Dict.get-put d canonical value k))
  ]

  put_value-IsBare :
      (source_map : SourceMap) (raw_key canonical : String) (e : Extractor) (d : Dict String Text)
      → In (raw_key, canonical, e) source_map
      → IsBare source_map d
      → IsBare source_map (put_value canonical (emit search raw raw_key e) d)
  unfolding put_value
  put_value-IsBare source_map raw_key canonical e d i b =
      elim (Option-cases (emit search raw raw_key e)) [
        | inl n ↦ subst (λ o. IsBare source_map (put_value canonical o d)) (sym n) b
        | inr (value, s) ↦
            subst (λ o. IsBare source_map (put_value canonical o d)) (sym s)
              (put-IsBare source_map canonical value d
                (emit-some source_map raw_key canonical e value i s) b)
      ]

  collect-IsBare :
      (source_map rest : SourceMap) (d : Dict String Text)
      → All (λ x. In x source_map) rest
      → IsBare source_map d
      → IsBare source_map (collect search raw rest d)
  unfolding collect
  collect-IsBare source_map [] d i b = b
  collect-IsBare source_map ((raw_key, canonical, e) ∷ rest) d (i, more) b =
      collect-IsBare source_map rest (put_value canonical (emit search raw raw_key e) d) more
        (put_value-IsBare source_map raw_key canonical e d i b)

none_there : (c : String) (v : Text) → Dict.get [] c ≡ some v → ⊥
unfolding Dict.get
none_there c v n = ground (arith, n)

if_any-some : (d links : Dict String Text) → if_any d ≡ some links → d ≡ links
if_any-some [] links h = absurd (ground (arith, h))
if_any-some (e ∷ d) links h = ground (arith, h)

All-In :
    (xs ys : SourceMap)
    → ((x : String × String × Extractor) → In x xs → In x ys)
    → All (λ x. In x ys) xs
All-In [] ys h = tt
All-In (x ∷ xs) ys h = (h x (inl refl), All-In xs ys (λ y i. h y (inr i)))

links_of-IsBare :
    (search : Pattern → Text → Option Text) (raw : Dict String (Option Text))
    (found : Option SourceMap) (links : Dict String Text) (canonical : String) (value : Text)
    → links_of search raw found ≡ some links
    → Dict.get links canonical ≡ some value
    → (source_map : SourceMap) × (found ≡ some source_map)
      × IsFrom search raw source_map canonical value
      × (contains_url value ≡ false)
links_of-IsBare search raw none links canonical value h g = absurd (ground (arith, h))
links_of-IsBare search raw (some source_map) links canonical value h g =
    let all = collect search raw source_map [] in
    let bare =
      collect-IsBare search raw source_map source_map [] (All-In source_map source_map (λ x i. i))
        (λ c v n. absurd (none_there c v n)) in
    let (from, free) =
      bare canonical value
        (subst (λ d. Dict.get d canonical ≡ some value) (sym (if_any-some all links h)) g) in
    (source_map, refl, from, free)

url_free :
    (value scheme a b : Text)
    → contains_url (scheme ++ b) ≡ true
    → contains_url value ≡ false
    → value ≢ a ++ (scheme ++ b)
url_free value scheme a b u n e =
    let t : contains_url value ≡ true =
      subst (λ v. contains_url v ≡ true) (sym e) (contains_url-append a (scheme ++ b) u) in
    ground (arith, t, n)

-- A value that is emitted under a canonical key is what the extractor of an entry of the
-- source's map, with this canonical key, made of the raw value under the entry's raw key, and it
-- holds neither "http://" nor "https://" anywhere.
pub normalize-IsFrom :
    (search : Pattern → Text → Option Text) (raw : Dict String (Option Text)) (source : String)
    (links : Dict String Text) (canonical : String) (value a b : Text)
    → normalize search raw source ≡ some links
    → Dict.get links canonical ≡ some value
    → (source_map : SourceMap) × (Dict.get source_maps source ≡ some source_map)
      × IsFrom search raw source_map canonical value
      × (value ≢ a ++ (http_scheme ++ b))
      × (value ≢ a ++ (https_scheme ++ b))
unfolding normalize
normalize-IsFrom search [] source links canonical value a b h g = absurd (ground (arith, h))
normalize-IsFrom search (r ∷ raw) source links canonical value a b h g =
    let (source_map, s, from, bare) =
      links_of-IsBare search (r ∷ raw) (Dict.get source_maps source) links canonical value h g in
    (
      source_map,
      s,
      from,
      url_free value http_scheme a b (contains_url-http b) bare,
      url_free value https_scheme a b (contains_url-https b) bare,
    )
