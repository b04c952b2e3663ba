-- ===== src/Web/View/Pages.antt =====
-- internal/web/server.go: renderAssistantBody and viewMessages, what a page shows of a conversation.
use pyttechat.Base.{
  ℕ, suc, Bool, true, false, ◌&&◌, List, [], ◌∷◌, ◌++◌, pos, Bytes, ◌==◌, if◌then◌else◌,
}
use pyttechat.Errors.{Result, ok, err}
use pyttechat.Text.{trim_space, is_empty}
use pyttechat.Llm.{
  Part, PartType, text, error, image, attachment, is_assistant, Message, message_text,
}
use pyttechat.Web.Job.{ViewStatus}
use pyttechat.Web.View.{
  Renderer, Formats, ViewMessage, message_role_label, role_string, assistant_statuses,
  render_error_part, render_image_part, render_attachment_part, escaped_plain_text_html,
}

module _ (f : Formats) (render : Renderer) where
  -- The switch of renderAssistantBody.
  unfoldable pub render_part : PartType → Part → Result Bytes
  render_part text part = if is_empty (trim_space part.text) then ok [] else render part.text
  render_part error part = ok (render_error_part f part)
  render_part image part = ok (render_image_part f part)
  render_part attachment part = ok (render_attachment_part f part)
  render_part _ part = ok []

  -- renderAssistantBody
  unfoldable pub render_assistant_body : List Part → Result Bytes
  render_assistant_body [] = ok []
  render_assistant_body (p ∷ ps) = elim (render_part p.type p) [
    | err e ↦ err e
    | ok html ↦ elim (render_assistant_body ps) [ err e ↦ err e | ok rest ↦ ok (html ++ rest) ]
  ]

  -- The HTML of an assistant's message, or its text escaped where the renderer fails.
  abbrev pub body_or : Bytes → List Part → Bytes
  body_or plain parts = elim (render_assistant_body parts) [
    | err e ↦ escaped_plain_text_html f plain
    | ok html ↦ html
  ]

  -- The body of the loop of viewMessages.
  unfoldable pub view_message : ℕ → Message → ViewMessage
  view_message i m =
      let plain = message_text m in
      if is_assistant m.role
      then record {
        index = i;
        role = role_string m.role;
        label = message_role_label m.role;
        text = plain;
        html = body_or plain m.parts;
        statuses = assistant_statuses f m.parts (pos i);
        completed_at = if m.completed_at == 0 then [] else f.rfc3339 m.completed_at;
      }
      else record {
        index = i;
        role = role_string m.role;
        label = message_role_label m.role;
        text = plain;
        html = [];
        statuses = [];
        completed_at = [];
      }

  abbrev no_statuses : List ViewStatus → Bool
  no_statuses [] = true
  no_statuses (s ∷ ss) = false

  -- A view that shows nothing.
  abbrev pub is_blank : ViewMessage → Bool
  is_blank v = is_empty v.text && (is_empty v.html && no_statuses v.statuses)

  -- viewMessages, from the message with index `i`.
  unfoldable pub views_from : ℕ → List Message → List ViewMessage
  views_from i [] = []
  views_from i (m ∷ ms) =
      let rest = views_from (suc i) ms in
      let view = view_message i m in if is_blank view then rest else view ∷ rest

  unfoldable pub view_messages : List Message → List ViewMessage
  view_messages ms = views_from 0 ms
