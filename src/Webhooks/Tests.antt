-- ===== src/Webhooks/Tests.antt =====
-- Runs of app/webhooks/ghl_webhooks.py, and its theorem at a concrete body.
use ai_receptionist_for_immi.Prelude.{
  String, ◌≡◌, refl, true, Option, some, [], ◌∷◌, arith, ◌==◌, eq_iff, ◌⊕◌,
}
use ai_receptionist_for_immi.Webhooks.{is_ascii, ghl_webhook, GhlEvent, EventStore, server_error}
use ai_receptionist_for_immi.Webhooks.Signed.{turned_down, ghl_webhook-refused}
use ai_receptionist_for_immi.Dict.{put}
use ai_receptionist_for_immi.Context.{drop_chars}

abbrev empty_store : EventStore
empty_store = record { contacts = []; appointment_events = []; opportunity_events = [] }

abbrev created : GhlEvent
created = record {
  event_type = "contact.created";
  ghl_id = "g1";
  phone = "+1555";
  appointment = "{}";
  opportunity = "{}";
}

abbrev loads_created : String → Option GhlEvent
loads_created body = some created

abbrev digest : String → String → String
digest secret body = secret ⊕ body

signed_test :
    (ghl_webhook digest loads_created "k" "b" "sha256=kb" empty_store).1.contacts
    ≡ ("+1555", "g1") ∷ []
unfolding ghl_webhook put
signed_test = refl

ghl_webhook-refused_example :
    ghl_webhook digest loads_created "k" "b" "sha256=x" empty_store
    ≡ (turned_down "sha256=x", empty_store)
unfolding is_ascii
ghl_webhook-refused_example =
    ghl_webhook-refused digest loads_created "k" "b" "sha256=x" empty_store refl refl (λ e.
      let same : ("sha256=x" == "sha256=kb") ≡ true = (eq_iff "sha256=x" "sha256=kb").1 e in
      ground (arith, same))

-- a digest with a character beyond ASCII is answered with an exception
refused_test : turned_down "sha256=é" ≡ server_error
unfolding is_ascii drop_chars
refused_test = refl
