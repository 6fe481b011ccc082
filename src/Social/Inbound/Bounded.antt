-- ===== src/Social/Inbound/Bounded.antt =====
-- app/social/webhook_handler.py: the replies that are sent and the histories that are kept.
use ai_receptionist_for_immi.Prelude.{
  ◌-◌, ◌≤◌, String, count, Bool, true, false, Option, List, [], ◌∷◌, ◌++◌, arith, if◌then◌else◌,
  ◌⊕◌, nonempty, length, length-drop, last_of,
}
use ai_receptionist_for_immi.Conversation.{Turn}
use ai_receptionist_for_immi.Social.{route_message, format_reply, Settings}
use ai_receptionist_for_immi.Social.Lengths.{count-format_reply}
use ai_receptionist_for_immi.Social.Inbound.{
  heard_context, language_of, replied_context, log_of, process_message, process_whatsapp_message,
  SocialContext, SocialRequest, send_reply, send_whatsapp, save_context, log_analytics,
}

-- A reply to WhatsApp has at most 4096 characters, and a saved history at most sixteen turns.
abbrev pub Bounded : List SocialRequest → Type 0
Bounded [] = Unit {0}
Bounded (send_reply sid reply ∷ rs) = Bounded rs
Bounded (send_whatsapp sender recipient reply ∷ rs) = (count reply ≤ 4096) × Bounded rs
Bounded (save_context key ctx ∷ rs) = (length ctx.history ≤ 16) × Bounded rs
Bounded (log_analytics sid channel author message reply ∷ rs) = Bounded rs

module _ (settings : Settings) (lower strip_markdown : String → String) where
  length-last_of : (xs : List Turn) → length (last_of 16 xs) ≤ 16
  length-last_of xs = omega (arith, length-drop (length xs - 16) xs)

  history-replied_context :
      (reply language : String) (ctx : SocialContext)
      → length (replied_context settings lower strip_markdown reply language ctx).history ≤ 16
  unfolding replied_context
  history-replied_context reply language ctx =
      ground
        (arith, length-last_of (ctx.history ++ record { role = "assistant"; content = reply } ∷ []))

  if-Bounded :
      (b : Bool) (to sender reply key channel author body answer : String) (ctx : SocialContext)
      → (count reply ≤ 4096)
      → (length ctx.history ≤ 16)
      → Bounded (
          if b
          then send_whatsapp to sender reply
            ∷ save_context ("social_ctx:" ⊕ key) ctx
            ∷ log_of settings lower strip_markdown key channel author body answer
            ∷ []
          else [])
  if-Bounded true to sender reply key channel author body answer ctx r h = (r, (h, tt))
  if-Bounded false to sender reply key channel author body answer ctx r h = tt

  -- Whatever is in the context that was loaded and whatever the model answers, a reply to WhatsApp keeps
  -- within 4096 characters and the history that is saved within sixteen turns.
  pub process_whatsapp_message-Bounded :
      (key sender to : String) (lookup answer : Option String) (loaded : SocialContext)
      (body : String)
      → Bounded (
          process_whatsapp_message settings lower strip_markdown key sender to lookup answer loaded
            body)
  unfolding process_whatsapp_message process_message
  process_whatsapp_message-Bounded key sender to lookup answer loaded body =
      let ctx = heard_context settings lower strip_markdown "whatsapp" sender lookup body loaded in
      let out =
        route_message settings lower (language_of settings lower strip_markdown body ctx) "whatsapp"
          answer body in
      if-Bounded (nonempty body) to sender (format_reply strip_markdown out.0 "whatsapp") key
        "whatsapp" sender body out.0 (replied_context settings lower strip_markdown out.0 out.1 ctx)
        (count-format_reply strip_markdown out.0).0 (history-replied_context out.0 out.1 ctx)
