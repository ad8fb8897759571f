-- ===== src/Framework/ExternalLinks.antt =====
-- src/manga_gateway/framework/external_links.py: `normalize` and the maps of the sources. A text is
-- its code points, a raw value is `None` or its `str`, and the search of `re` for a pattern is a
-- parameter.

pub mod Bare
pub mod Emitted
mod Tests
use mangarr_gateway.Prelude.{
  Bool, List, Option, String, [], false, if◌then◌else◌, leb, nat_beq, none, some, string_eq, true,
  ℕ, ◌&&◌, ◌+◌, ◌||◌, ◌∷◌,
}
use mangarr_gateway.Prelude.Dict
use mangarr_gateway.Prelude.Dict.{Dict}
use mangarr_gateway.Package.Text.{Text}

-- `_AL`, `_MU`, `_MD`, `_MB`, `_BW`, `_KEN`
pub data Pattern : Type 0 where
  al : Pattern
  mu : Pattern
  md : Pattern
  mb : Pattern
  bw : Pattern
  ken : Pattern

pub data Extractor : Type 0 where
  pass_through : Extractor
  stringify : Extractor
  path_after : Pattern → Extractor

abbrev pub SourceMap : Type 0
SourceMap = List (String × String × Extractor)

abbrev pub comix_map : SourceMap
comix_map =
    ("al", "anilist", path_after al)
    ∷ ("mal", "myAnimeList", path_after al)
    ∷ ("mu", "mangaUpdates", path_after mu)
    ∷ ("md", "mangaDex", path_after md)
    ∷ ("mb", "mangaBaka", path_after mb)
    ∷ []

abbrev pub mangadex_map : SourceMap
mangadex_map =
    ("al", "anilist", pass_through)
    ∷ ("mal", "myAnimeList", pass_through)
    ∷ ("mu", "mangaUpdates", pass_through)
    ∷ ("ap", "animePlanet", pass_through)
    ∷ ("kt", "kitsu", pass_through)
    ∷ ("bw", "bookwalker", path_after bw)
    ∷ []

abbrev pub atsumaru_map : SourceMap
atsumaru_map =
    ("anilistId", "anilist", pass_through)
    ∷ ("malId", "myAnimeList", pass_through)
    ∷ ("mangaUpdatesId", "mangaUpdates", pass_through)
    ∷ ("mangaBakaId", "mangaBaka", pass_through)
    ∷ ("kitsuId", "kitsu", pass_through)
    ∷ ("apId", "animePlanet", pass_through)
    ∷ ("annId", "ann", pass_through)
    ∷ ("kenmeiUrl", "kenmei", path_after ken)
    ∷ []

abbrev pub mangadot_map : SourceMap
mangadot_map =
    ("anilist_id", "anilist", stringify)
    ∷ ("mal_id", "myAnimeList", stringify)
    ∷ ("mangaupdates_id", "mangaUpdates", pass_through)
    ∷ ("mangabaka_id", "mangaBaka", stringify)
    ∷ ("kitsu_id", "kitsu", stringify)
    ∷ ("mangadex_id", "mangaDex", stringify)
    ∷ []

abbrev pub weebcentral_map : SourceMap
weebcentral_map =
    ("AniList", "anilist", path_after al) ∷ ("MangaUpdates", "mangaUpdates", path_after mu) ∷ []

abbrev pub mangafire_map : SourceMap
mangafire_map =
    ("anilist_id", "anilist", pass_through) ∷ ("mal_id", "myAnimeList", pass_through) ∷ []

abbrev pub source_maps : Dict String SourceMap
source_maps =
    ("comix", comix_map)
    ∷ ("mangadex", mangadex_map)
    ∷ ("atsumaru", atsumaru_map)
    ∷ ("mangadot", mangadot_map)
    ∷ ("weebcentral", weebcentral_map)
    ∷ ("mangafire", mangafire_map)
    ∷ []

-- Under `(?i)`, where the long s is an s.
abbrev pub fold : ℕ → ℕ
fold c = if leb 65 c && leb c 90 then c + 32 else if nat_beq c 383 then 115 else c

-- What follows a prefix, in any case.
unfoldable pub after_folded : Text → Text → Option Text
after_folded [] s = some s
after_folded (p ∷ ps) [] = none
after_folded (p ∷ ps) (c ∷ s) = if nat_beq p (fold c) then after_folded ps s else none

-- "http", "://"
abbrev pub http : Text
http = 104 ∷ 116 ∷ 116 ∷ 112 ∷ []

abbrev pub slashes : Text
slashes = 58 ∷ 47 ∷ 47 ∷ []

unfoldable pub after_http : Text → Bool
unfolding after_folded
after_http [] = false
after_http (c ∷ s) = elim (after_folded slashes (c ∷ s)) [
  | some r ↦ true
  | none ↦ nat_beq (fold c) 115 && elim (after_folded slashes s) [ some r ↦ true | none ↦ false ]
]

-- `re.search(r"(?i)https?://", value)`: at the start, and anywhere.
unfoldable pub starts_url : Text → Bool
unfolding after_folded after_http
starts_url s = elim (after_folded http s) [ some r ↦ after_http r | none ↦ false ]

unfoldable pub contains_url : Text → Bool
contains_url [] = false
contains_url (c ∷ s) = starts_url (c ∷ s) || contains_url s

-- `str(value) or None`
abbrev pub non_empty : Text → Option Text
non_empty [] = none
non_empty (c ∷ s) = some (c ∷ s)

-- `if not value`, and the check for a URL.
unfoldable pub accept : Option Text → Option Text
unfolding contains_url
accept none = none
accept (some []) = none
accept (some (c ∷ s)) = if contains_url (c ∷ s) then none else some (c ∷ s)

unfoldable pub put_value : String → Option Text → Dict String Text → Dict String Text
put_value canonical none d = d
put_value canonical (some value) d = Dict.put d canonical value

abbrev pub if_any : Dict String Text → Option (Dict String Text)
if_any [] = none
if_any (e ∷ d) = some (e ∷ d)

module _ (search : Pattern → Text → Option Text) where
  -- An extractor on a raw value.
  unfoldable pub extract : Extractor → Option Text → Option Text
  extract e none = none
  extract pass_through (some t) = non_empty t
  extract stringify (some t) = some t
  extract (path_after p) (some t) = search p t

  unfoldable pub emit : Dict String (Option Text) → String → Extractor → Option Text
  unfolding extract accept
  emit raw raw_key e = elim (Dict.get raw raw_key) [
    | none ↦ none
    | some value ↦ accept (extract e value)
  ]

  -- The loop over the source's map.
  unfoldable pub collect :
      Dict String (Option Text) → SourceMap → Dict String Text → Dict String Text
  unfolding emit put_value
  collect raw [] d = d
  collect raw ((raw_key, canonical, e) ∷ rest) d =
      collect raw rest (put_value canonical (emit raw raw_key e) d)

  -- The links under the map of a source, none where there is no map.
  abbrev pub links_of : Dict String (Option Text) → Option SourceMap → Option (Dict String Text)
  links_of raw none = none
  links_of raw (some source_map) = if_any (collect raw source_map [])

  unfoldable pub normalize : Dict String (Option Text) → String → Option (Dict String Text)
  normalize [] source = none
  normalize (r ∷ raw) source = links_of (r ∷ raw) (Dict.get source_maps source)
