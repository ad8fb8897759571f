-- ===== src/Framework/ExternalLinks/Tests.antt =====
-- Concrete inputs for the theorems on the external links.
use mangarr_gateway.Prelude.{Option, String, [], inl, refl, some, string_eq, ◌++◌, ◌∷◌, ◌≡◌, ◌≢◌}
use mangarr_gateway.Prelude.Dict
use mangarr_gateway.Prelude.Dict.{Dict}
use mangarr_gateway.Package.Text.{Text}
use mangarr_gateway.Framework.ExternalLinks.{
  Pattern, al, path_after, SourceMap, comix_map, source_maps, starts_url, contains_url, accept,
  put_value, extract, emit, collect, normalize,
}
use mangarr_gateway.Framework.ExternalLinks.Bare.{
  http_scheme, https_scheme, IsFrom, normalize-IsFrom,
}
use mangarr_gateway.Framework.ExternalLinks.Emitted.{normalize-emits}

-- Every pattern finds "12", and the source gives a link and a storefront's.
abbrev twelve : Text
twelve = 49 ∷ 50 ∷ []

abbrev search : Pattern → Text → Option Text
search p t = some twelve

abbrev link : Text
link = https_scheme ++ 47 ∷ 49 ∷ 50 ∷ []

abbrev raw : Dict String (Option Text)
raw = ("amz", some link) ∷ ("al", some link) ∷ []

abbrev links : Dict String Text
links = ("anilist", twelve) ∷ []

abbrev two_links : Dict String (Option Text)
two_links = ("al", some link) ∷ ("kt", some twelve) ∷ []

-- A link that a map passes through is dropped.
passed_link : normalize search two_links "mangadex" ≡ some (("kitsu", twelve) ∷ [])
unfolding normalize collect emit put_value accept extract contains_url starts_url Dict.get Dict.put
passed_link = refl

normalize-IsFrom_example :
    (source_map : SourceMap) × (Dict.get source_maps "comix" ≡ some source_map)
    × IsFrom search raw source_map "anilist" twelve
    × (twelve ≢ [] ++ (http_scheme ++ []))
    × (twelve ≢ [] ++ (https_scheme ++ []))
unfolding normalize collect emit put_value accept extract contains_url starts_url Dict.get Dict.put
normalize-IsFrom_example =
    normalize-IsFrom search raw "comix" links "anilist" twelve [] [] refl refl

normalize-emits_example :
    (out : Dict String Text) × (value : Text) × (normalize search raw "comix" ≡ some out)
    × (Dict.get out "anilist" ≡ some value)
unfolding extract contains_url starts_url Dict.get
normalize-emits_example =
    normalize-emits search raw "comix" comix_map "al" "anilist" (path_after al) (some link) 49
      (50 ∷ []) refl (inl refl) refl refl refl
