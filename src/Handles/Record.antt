-- ===== src/Handles/Record.antt =====
-- `ResolutionRecord` of src/manga_gateway/handles/store.py. A decimal chapter number is its text.
use mangarr_gateway.Prelude.{Option, String, ℕ}

pub record ResolutionRecord : Type 0 where
  pub source_key : String
  pub chapter_id : String
  pub language : String
  pub title : String
  pub manga_title : Option String
  pub chapter_number : Option String
  pub volume : Option ℕ
  pub scanlation_group : Option String
  pub page_count : Option ℕ
