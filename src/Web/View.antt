-- ===== src/Web/View.antt =====
-- internal/web/server.go: the HTML of a stored or finished message. The renderer of Markdown is
-- the interface assistantRenderer; what the code calls of the standard library to escape and to
-- format is a parameter too.
pub mod Pages
pub mod Places
use pyttechat.Base.{
  ℕ, zero, suc, ◌+◌, ◌*◌, Bool, true, false, ◌&&◌, ◌||◌, not, List, [], ◌∷◌, ◌++◌, Option, none,
  some, ℤ, pos, negsuc, is_not_positive, Bytes, ltb, ◌==◌, if◌then◌else◌,
}
use pyttechat.Errors.{Result, ok, err}
use pyttechat.Text.{trim_space, is_empty, has_prefix, contains_any, replace_all, join}
use pyttechat.Text.Laws.{codes}
use pyttechat.Llm.{
  Part, PartType, text, reasoning, summary, error, image, attachment, Role, system, user, assistant,
  other_role, is_assistant, Message, message_text,
}
use pyttechat.Web.Job.{ViewStatus}

-- type assistantRenderer interface
abbrev pub Renderer : Type 0
Renderer = Bytes → Result Bytes

-- html.EscapeString, template.HTMLEscapeString, strconv.Itoa, `%.1f` of a size in a unit, and the
-- format of a time.
pub record Formats : Type 0 where
  pub escape_string : Bytes → Bytes
  pub html_escape_string : Bytes → Bytes
  pub itoa : ℤ → Bytes
  pub one_decimal : ℕ → ℕ → Bytes
  pub rfc3339 : ℕ → Bytes

pub record ViewMessage : Type 0 where
  pub index : ℕ
  pub role : Bytes
  pub label : Bytes
  pub text : Bytes
  pub html : Bytes
  pub statuses : List ViewStatus
  pub completed_at : Bytes

-- safeBFFURL
unfoldable pub safe_bff_url : Bytes → Bytes
safe_bff_url raw =
    let value = trim_space raw in
    if is_empty value || contains_any value (codes "\"'<> \t\r\n")
    then []
    else if has_prefix value (codes "/assets/")
    then value
    else []

-- messageRoleLabel, and string(role)
abbrev pub message_role_label : Role → Bytes
message_role_label user = codes "You"
message_role_label assistant = codes "Assistant"
message_role_label system = codes "system"
message_role_label (other_role r) = r

abbrev pub role_string : Role → Bytes
role_string user = codes "user"
role_string assistant = codes "assistant"
role_string system = codes "system"
role_string (other_role r) = r

-- reasoningDisplayText
unfoldable pub reasoning_display_text : Part → Bytes
reasoning_display_text part =
    let shown = trim_space part.text in
    if not (is_empty shown) then shown else trim_space (join part.summary (codes "\n"))

module _ (f : Formats) where
  -- statusContentID
  unfoldable pub status_content_id : ℤ → ℕ → Bytes
  status_content_id (negsuc n) j = []
  status_content_id (pos i) j =
      codes "message-status-content-" ++ (f.itoa (pos i) ++ (codes "-" ++ f.itoa (pos j)))

  unfoldable pub status_of : Bytes → ℤ → ℕ → Bytes → List ViewStatus
  unfolding status_content_id
  status_of kind i j [] = []
  status_of kind i j (c ∷ cs) =
      record { kind = kind; label = kind; text = c ∷ cs; content_id = status_content_id i j } ∷ []

  -- The switch of assistantStatuses.
  unfoldable pub part_statuses : ℤ → ℕ → PartType → Part → List ViewStatus
  unfolding status_of
  part_statuses i j reasoning part = status_of (codes "thinking") i j (reasoning_display_text part)
  part_statuses i j summary part = status_of (codes "summary") i j (trim_space part.text)
  part_statuses i j _ part = []

  -- The loop of assistantStatuses, from the part with index `j`.
  unfoldable pub statuses_from : ℤ → ℕ → List Part → List ViewStatus
  statuses_from i j [] = []
  statuses_from i j (p ∷ ps) = part_statuses i j p.type p ++ statuses_from i (suc j) ps

  -- assistantStatuses
  unfoldable pub assistant_statuses : List Part → ℤ → List ViewStatus
  assistant_statuses parts i = statuses_from i 0 parts

  -- renderErrorPart
  unfoldable pub render_error_part : Part → Bytes
  render_error_part part =
      let shown = trim_space part.text in
      if is_empty shown
      then []
      else codes "<div class=\"message-part-error\" role=\"alert\">"
        ++ (f.escape_string shown ++ codes "</div>")

  abbrev size_attribute : Bytes → ℤ → Bytes
  size_attribute name n =
      if is_not_positive n
      then []
      else codes " " ++ (name ++ (codes "=\"" ++ (f.itoa n ++ codes "\"")))

  -- renderImagePart
  unfoldable pub render_image_part : Part → Bytes
  render_image_part part =
      let src = safe_bff_url part.url in
      let alt = trim_space part.alt in
      let alt' = if is_empty alt then trim_space part.filename else alt in
      let caption = trim_space part.filename in
      if is_empty src
      then []
      else codes "<figure class=\"message-image\"><a href=\""
        ++ (f.escape_string src
            ++ (codes "\" target=\"_blank\" rel=\"noopener noreferrer\"><img src=\""
                ++ (f.escape_string src
                    ++ (codes "\" alt=\""
                        ++ (f.escape_string alt'
                            ++ (codes "\" loading=\"lazy\" decoding=\"async\""
                                ++ (size_attribute (codes "width") part.width
                                    ++ (size_attribute (codes "height") part.height
                                        ++ (codes "></a>"
                                            ++ ((if is_empty caption
                                                  then []
                                                  else codes "<figcaption>"
                                                    ++ (f.escape_string caption
                                                        ++ codes "</figcaption>"))
                                                ++ codes "</figure>"))))))))))

  -- formatByteSize
  unfoldable pub format_byte_size : ℤ → Bytes
  format_byte_size (negsuc n) = []
  format_byte_size (pos n) =
      if n == 0
      then []
      else if ltb n 1024
      then f.itoa (pos n) ++ codes " B"
      else if ltb n (1024 * 1024)
      then f.one_decimal n 1024 ++ codes " KB"
      else f.one_decimal n (1024 * 1024) ++ codes " MB"

  abbrev unless_empty : Bytes → List Bytes
  unless_empty [] = []
  unless_empty (c ∷ cs) = (c ∷ cs) ∷ []

  -- attachmentMeta
  unfoldable pub attachment_meta : Part → Bytes
  attachment_meta part =
      join (unless_empty (trim_space part.mime_type) ++ unless_empty (format_byte_size part.size))
        (codes " - ")

  -- renderAttachmentPart
  unfoldable pub render_attachment_part : Part → Bytes
  render_attachment_part part =
      let href = safe_bff_url part.url in
      let filename = trim_space part.filename in
      let name = if is_empty filename then codes "attachment" else filename in
      let meta = attachment_meta part in
      let preview = trim_space part.text in
      codes "<div class=\"message-attachment-block\">"
      ++ ((if not (is_empty href)
            then codes "<a class=\"message-attachment\" href=\""
              ++ (f.escape_string href ++ codes "\">")
            else codes "<span class=\"message-attachment\">")
          ++ (codes "<span class=\"message-attachment-name\">"
              ++ (f.escape_string name
                  ++ (codes "</span>"
                      ++ ((if is_empty meta
                            then []
                            else codes "<span class=\"message-attachment-meta\">"
                              ++ (f.escape_string meta ++ codes "</span>"))
                          ++ ((if not (is_empty href) then codes "</a>" else codes "</span>")
                              ++ ((if is_empty preview
                                    then []
                                    else codes "<pre class=\"message-attachment-preview\"><code>"
                                      ++ (f.escape_string preview ++ codes "</code></pre>"))
                                  ++ codes "</div>")))))))

  -- escapedPlainTextHTML
  unfoldable pub escaped_plain_text_html : Bytes → Bytes
  escaped_plain_text_html plain = replace_all (codes "\n") (codes "<br>\n") (
      replace_all (codes "\r") (codes "\n")
        (replace_all (codes "\r\n") (codes "\n") (f.html_escape_string plain)))
