-- ===== src/Api/Tests.antt =====
-- The windows on the releases of three sources.
use mangarr_gateway.Prelude.{
  List, [], count, keep, ltb, negsuc, none, pos, refl, some, take, ℕ, ◌++◌, ◌∷◌, ◌≡◌,
}
use mangarr_gateway.Api.{
  clamp, parse_limit, place, sort_newest_first, search_window, recent_feed, drop,
}
use mangarr_gateway.Api.Merge.{IsNewestFirst, has_date, search_window-cut}

-- A release is its number and its date.
abbrev date : ℕ × ℕ → ℕ
date r = r.1

abbrev releases : List (ℕ × ℕ)
releases = (1, 20) ∷ (2, 10) ∷ (3, 30) ∷ (4, 20) ∷ []

second_window : search_window date (pos 1) (pos 2) releases ≡ (1, 20) ∷ (4, 20) ∷ []
unfolding search_window sort_newest_first place clamp
second_window = refl

negative_window : search_window date (negsuc 4) (pos 1) releases ≡ (3, 30) ∷ []
unfolding search_window sort_newest_first place clamp
negative_window = refl

since_feed : recent_feed date (some 20) 100 releases ≡ (3, 30) ∷ []
unfolding recent_feed sort_newest_first place keep
since_feed = refl

malformed_limit : parse_limit (λ s. none) (some "many") ≡ 2000
unfolding parse_limit
malformed_limit = refl

search_window-cut_example :
    (sort_newest_first date releases
      ≡ take (clamp (pos 1)) (sort_newest_first date releases)
        ++ (search_window date (pos 1) (pos 2) releases
            ++ drop (clamp (pos 2)) (drop (clamp (pos 1)) (sort_newest_first date releases))))
    × IsNewestFirst date (sort_newest_first date releases)
    × (count (λ r. ltb r.0 3) (sort_newest_first date releases) ≡ count (λ r. ltb r.0 3) releases)
    × (keep (has_date date 20) (sort_newest_first date releases) ≡ keep (has_date date 20) releases)
search_window-cut_example = search_window-cut date (pos 1) (pos 2) releases (λ r. ltb r.0 3) 20
