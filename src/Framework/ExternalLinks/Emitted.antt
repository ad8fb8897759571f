-- ===== src/Framework/ExternalLinks/Emitted.antt =====
-- The entries of a map that `normalize` emits.
use mangarr_gateway.Prelude.{
  Bool, In, Option, Option-cases, String, [], ap, arith, false, inl, inr, none, refl, some,
  string_eq, subst, sym, true, ℕ, ◌∙◌, ◌∷◌, ◌≡◌,
}
use mangarr_gateway.Prelude.Dict
use mangarr_gateway.Prelude.Dict.{Dict}
use mangarr_gateway.Package.Text.{Text}
use mangarr_gateway.Framework.ExternalLinks.{
  Pattern, Extractor, SourceMap, source_maps, contains_url, accept, put_value, if_any, extract,
  emit, collect, links_of, normalize,
}

abbrev is_there : Option Text → Bool
is_there none = false
is_there (some _) = true

put-is_there :
    (canonical k : String) (o : Option Text) (d : Dict String Text)
    → is_there (Dict.get d k) ≡ true
    → is_there (Dict.get (put_value canonical o d) k) ≡ true
unfolding put_value
put-is_there canonical k none d h = h
put-is_there canonical k (some v) d h = ground (arith, Dict.get-put d canonical v k, h)

put-is_there_new :
    (canonical : String) (v : Text) (d : Dict String Text)
    → is_there (Dict.get (put_value canonical (some v) d) canonical) ≡ true
unfolding put_value
put-is_there_new canonical v d =
    ground (arith, Dict.get-put d canonical v canonical, string_eq.beq_iff canonical canonical)

accept-free :
    (c : ℕ) (s : Text) → contains_url (c ∷ s) ≡ false → accept (some (c ∷ s)) ≡ some (c ∷ s)
unfolding accept
accept-free c s n = ground (arith, n)

module _ (search : Pattern → Text → Option Text) (raw : Dict String (Option Text)) where
  collect-is_there :
      (rest : SourceMap) (k : String) (d : Dict String Text)
      → is_there (Dict.get d k) ≡ true
      → is_there (Dict.get (collect search raw rest d) k) ≡ true
  unfolding collect
  collect-is_there [] k d h = h
  collect-is_there ((raw_key, canonical, e) ∷ rest) k d h =
      collect-is_there rest k (put_value canonical (emit search raw raw_key e) d)
        (put-is_there canonical k (emit search raw raw_key e) d h)

  collect-emits :
      (rest : SourceMap) (raw_key k : String) (e : Extractor) (v : Text) (d : Dict String Text)
      → In (raw_key, k, e) rest
      → emit search raw raw_key e ≡ some v
      → is_there (Dict.get (collect search raw rest d) k) ≡ true
  unfolding collect
  collect-emits [] raw_key k e v d i h = elim i [ ]
  collect-emits (x ∷ rest) raw_key k e v d (inl same) h =
      let made : is_there (Dict.get (put_value k (emit search raw raw_key e) d) k) ≡ true =
        subst (λ o. is_there (Dict.get (put_value k o d) k) ≡ true) (sym h)
          (put-is_there_new k v d) in
      subst (λ y. is_there (Dict.get (collect search raw (y ∷ rest) d) k) ≡ true) same
        (collect-is_there rest k (put_value k (emit search raw raw_key e) d) made)
  collect-emits ((other, canonical, x) ∷ rest) raw_key k e v d (inr i) h =
      collect-emits rest raw_key k e v (put_value canonical (emit search raw other x) d) i h

  emit-accepted :
      (raw_key : String) (e : Extractor) (given : Option Text) (c : ℕ) (s : Text)
      → Dict.get raw raw_key ≡ some given
      → extract search e given ≡ some (c ∷ s)
      → contains_url (c ∷ s) ≡ false
      → emit search raw raw_key e ≡ some (c ∷ s)
  unfolding emit
  emit-accepted raw_key e given c s g x n =
      let step : emit search raw raw_key e ≡ accept (extract search e given) = ground (arith, g) in
      step ∙ ap accept x ∙ accept-free c s n

empty-is_there : (k : String) → is_there (Dict.get [] k) ≡ true → ⊥
unfolding Dict.get
empty-is_there k h = ground (arith, h)

if_any-there :
    (d : Dict String Text) (k : String)
    → is_there (Dict.get d k) ≡ true
    → (links : Dict String Text) × (value : Text) × (if_any d ≡ some links)
      × (Dict.get links k ≡ some value)
if_any-there [] k h = absurd (empty-is_there k h)
if_any-there (x ∷ d) k h = elim (Option-cases (Dict.get (x ∷ d) k)) [
  | inl n ↦ absurd (ground (arith, n, h))
  | inr (value, g) ↦ (x ∷ d, value, refl, g)
]

empty_raw : (k : String) (given : Option Text) → Dict.get [] k ≡ some given → ⊥
unfolding Dict.get
empty_raw k given g = ground (arith, g)

-- If an entry of the source's map finds its raw key, and its extractor gives a value that is not
-- empty and in which no URL is found, then links are given and hold a value under the entry's
-- canonical key.
pub normalize-emits :
    (search : Pattern → Text → Option Text) (raw : Dict String (Option Text)) (source : String)
    (source_map : SourceMap) (raw_key canonical : String) (e : Extractor) (given : Option Text)
    (c : ℕ) (s : Text)
    → Dict.get source_maps source ≡ some source_map
    → In (raw_key, canonical, e) source_map
    → Dict.get raw raw_key ≡ some given
    → extract search e given ≡ some (c ∷ s)
    → contains_url (c ∷ s) ≡ false
    → (links : Dict String Text) × (value : Text) × (normalize search raw source ≡ some links)
      × (Dict.get links canonical ≡ some value)
unfolding normalize
normalize-emits search [] source source_map raw_key canonical e given c s m i g x n =
    absurd (empty_raw raw_key given g)
normalize-emits search (r ∷ raw) source source_map raw_key canonical e given c s m i g x n =
    let there =
      collect-emits search (r ∷ raw) source_map raw_key canonical e (c ∷ s) [] i
        (emit-accepted search (r ∷ raw) raw_key e given c s g x n) in
    let (links, value, some_links, got) =
      if_any-there (collect search (r ∷ raw) source_map []) canonical there in
    (links, value, ap (links_of search (r ∷ raw)) m ∙ some_links, got)
