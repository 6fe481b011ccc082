-- ===== src/Social/Tests.antt =====
-- Runs of app/social/channel_router.py, and the theorem of this part at a concrete reply.
use ai_receptionist_for_immi.Prelude.{◌≤◌, String, count, ◌≡◌, refl, none, ltb, if◌then◌else◌}
use ai_receptionist_for_immi.Social.{route_message, format_reply, Settings}
use ai_receptionist_for_immi.Social.Lengths.{count-format_reply}
use ai_receptionist_for_immi.Social.Inbound.{new_context, process_whatsapp_message}
use ai_receptionist_for_immi.Social.Inbound.Bounded.{Bounded, process_whatsapp_message-Bounded}

abbrev same : String → String
same t = t

abbrev office : Settings
office = record { booking_url = "url"; office_phone = "555" }

route_test :
    (route_message office same "en" "sms" none "necesito ayuda").0
    ≡ "Gracias por escribirnos. Para asistencia inmediata llame al 555."
unfolding route_message
route_test = refl

count-format_reply_example :
    (count (format_reply same "hello" "whatsapp") ≤ 4096)
    × (count (format_reply same "hello" "messenger") ≤ 2000)
    × (count (format_reply same "hello" "instagram") ≤ 1000)
    × (count (format_reply same "hello" "sms")
        ≡ (if ltb 160 (count "hello") then 164 else count "hello"))
count-format_reply_example = count-format_reply same "hello"

process_whatsapp_message-Bounded_example :
    Bounded (
      process_whatsapp_message office same same "1555" "+1555" "+1556" none none new_context "hola")
process_whatsapp_message-Bounded_example =
    process_whatsapp_message-Bounded office same same "1555" "+1555" "+1556" none none new_context
      "hola"
