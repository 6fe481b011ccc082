-- ===== src/Social/Lengths.antt =====
-- How long a reply on a channel may get.
use Prim.Native.String.count
use text.Mathlib.TextLemmas.{length-append as count-append}
use ai_receptionist_for_immi.Prelude.{
  ℕ, zero, suc, ◌≤◌, min, String, count, ◌≡◌, refl, ◌∙◌, inl, inr, arith, ltb, if◌then◌else◌,
  ltb→lt, Bool-cases,
}
use ai_receptionist_for_immi.Dict.{get, get_or}
use ai_receptionist_for_immi.Worker.{cut_text}
use ai_receptionist_for_immi.Social.{format_reply}

count-cut_text : (n : ℕ) (t : String) → count (cut_text n t) ≡ min n (count t)
unfolding cut_text
count-cut_text zero t = omega arith
count-cut_text (suc n) String.[] = rw count.nil (omega arith)
count-cut_text (suc n) (String.◌∷◌ c t) =
    rw (count.cons c (cut_text n t), count.cons c t) (omega (arith, count-cut_text n t))

-- A reply is within the limit of the channel for WhatsApp, Messenger and Instagram; a text message that
-- is cut has 164 characters, four more than its limit of 160, and any other has the length of the reply
-- without its markdown.
pub count-format_reply :
    (strip_markdown : String → String) (reply : String)
    → (count (format_reply strip_markdown reply "whatsapp") ≤ 4096)
      × (count (format_reply strip_markdown reply "messenger") ≤ 2000)
      × (count (format_reply strip_markdown reply "instagram") ≤ 1000)
      × (count (format_reply strip_markdown reply "sms")
          ≡ (if ltb 160 (count (strip_markdown reply)) then 164 else count (strip_markdown reply)))
unfolding format_reply get_or get
count-format_reply strip_markdown reply = (
  omega (arith, count-cut_text 4096 reply),
  omega (arith, count-cut_text 2000 (strip_markdown reply)),
  omega (arith, count-cut_text 1000 (strip_markdown reply)),
  elim (Bool-cases (ltb 160 (count (strip_markdown reply)))) [
    | inl e ↦ rw e (
        count-append (cut_text 140 (strip_markdown reply)) "... (cont'd in next msg)"
        ∙ omega (
          arith,
          count-cut_text 140 (strip_markdown reply),
          ltb→lt 160 (count (strip_markdown reply)) e,
        ))
    | inr e ↦ rw e refl
  ],
)
