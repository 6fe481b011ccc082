-- ===== src/Ingestion/Tests.antt =====
-- Runs of app/rag/ingestion.py, and the theorems of this part at concrete inputs.
use ai_receptionist_for_immi.Prelude.{
  ℕ, String, count, ◌≡◌, refl, true, Option, none, some, List, [], ◌∷◌, map, arith, length,
}
use ai_receptionist_for_immi.Context.{join}
use ai_receptionist_for_immi.Ingestion.{
  pack_from, make_children, chunk_of, chunk_document, score_quality, uncached, embed_texts, Tools,
}
use ai_receptionist_for_immi.Ingestion.Packing.{chunk_document-CutInto, CutInto}
use ai_receptionist_for_immi.Ingestion.Embedded.{embed_texts_lem, EmbedsAs}
use ai_receptionist_for_immi.Ingestion.Stored.{ingest_document, transcript_document, Pipeline}
use ai_receptionist_for_immi.Ingestion.Stored.Owned.{Owned, inserted, ingest_document-Owned}

-- a reader that knows one document of three sentences
abbrev sentences : List String
sentences = "A visa is needed." ∷ "Ask the court." ∷ "Yes." ∷ []

abbrev tools : Tools
tools = record {
  token_count = λ t. 60;
  split_sentences = λ t. sentences;
  strip = λ t. t;
  sha256 = λ t. t;
}

abbrev embed : String → List ℕ
embed t = count t ∷ []

abbrev service : List String → Option (List (List ℕ))
service ts = some (map embed ts)

abbrev cached : String → Option (List ℕ)
cached t = none

abbrev pipeline : Pipeline ℕ
pipeline = record {
  tools = tools;
  prefix_of = λ title t. none;
  replies = λ ts. some (some 8 ∷ none ∷ []);
  cached = cached;
  answer = service;
  uuid = λ n. "id";
  default_quality = 5;
  nine_tenths = λ q. q;
  zeros = 0 ∷ [];
}

pack_test :
    pack_from tools 100 sentences [] 0
    ≡ ("A visa is needed." ∷ []) ∷ ("Ask the court." ∷ []) ∷ ("Yes." ∷ []) ∷ []
unfolding pack_from
pack_test = refl

pack_wide_test : length (pack_from tools 400 sentences [] 0) ≡ 1
unfolding pack_from
pack_wide_test = refl

scores_test : score_quality 5 pipeline.replies sentences ≡ 8 ∷ 5 ∷ 5 ∷ []
unfolding score_quality
scores_test = refl

title_test :
    (transcript_document "CA1234567890"
      (record { role = "caller"; content = "Hola" } ∷ [])
      (record { caller_name = "Ana"; call_outcome = "booked"; started_on = "2024-05-01" }))
    ≡ ("Call transcript CA123456 (Ana, 2024-05-01, booked)", "Caller: Ana\nCaller: Hola")
unfolding transcript_document
title_test = refl

embeds : EmbedsAs embed cached service
embeds = record {
  nonempty_vectors = λ t. refl;
  coherent = λ t v e. absurd (ground arith);
  answers = λ ts. refl;
}

chunk_document-CutInto_example :
    ((gs : List (List String)) × (chunk_document tools "A visa" "en" ≡ map (chunk_of tools "en") gs)
      × CutInto tools 400 "A visa" gs)
    × ((hs : List (List String)) × (make_children tools "Yes." ≡ map (join " ") hs)
        × CutInto tools 100 "Yes." hs)
chunk_document-CutInto_example = chunk_document-CutInto tools "A visa" "en" "Yes."

embed_texts_lem_example :
    embed_texts (0 ∷ []) cached service sentences
    ≡ (map embed sentences, map (λ t. (t, embed t)) (uncached cached sentences))
embed_texts_lem_example = embed_texts_lem embed (0 ∷ []) cached service embeds sentences

ingest_document-Owned_example :
    Owned pipeline "id" "en" embed
      (inserted (ingest_document pipeline true none ("old" ∷ []) "Visas" "faq" "en" "A visa").1)
ingest_document-Owned_example =
    ingest_document-Owned pipeline embed "Visas" "faq" "en" "A visa" none ("old" ∷ []) true embeds
