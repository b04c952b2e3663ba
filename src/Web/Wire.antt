-- ===== src/Web/Wire.antt =====
-- internal/web/server.go: how an event is written to a browser and how its id comes back.
use pyttechat.Base.{ℕ, zero, suc, [], ◌∷◌, ◌++◌, Option, some, ℤ, pos, Bytes}
use pyttechat.Text.{trim_space}
use pyttechat.Text.Laws.{codes}
use pyttechat.Web.Job.{EventName, preview, reasoning, done, aborted, stream_error, StreamEvent}

abbrev name_string : EventName → Bytes
name_string preview = codes "preview"
name_string reasoning = codes "reasoning"
name_string done = codes "done"
name_string aborted = codes "aborted"
name_string stream_error = codes "stream-error"

-- if event.ID > 0 { fmt.Fprintf(w, "id: %d\n", event.ID) }
id_line : (ℕ → Bytes) → ℕ → Bytes
id_line itoa zero = []
id_line itoa (suc n) = codes "id: " ++ (itoa (suc n) ++ codes "\n")

-- writeSSE, where no write fails; `%d` is a parameter.
unfoldable pub write_sse : (ℕ → Bytes) → StreamEvent → Bytes
unfolding id_line
write_sse itoa event =
    id_line itoa event.id
    ++ (codes "event: "
        ++ (name_string event.name
            ++ (codes "\n" ++ (codes "data: " ++ (event.body ++ codes "\n\n")))))

-- id, if strconv.ParseInt found one and it is not negative
abbrev not_negative : Option ℤ → ℕ
not_negative (some (pos n)) = n
not_negative _ = 0

-- lastEventID of the value of the header; strconv.ParseInt is a parameter.
unfoldable pub last_event_id : (Bytes → Option ℤ) → Bytes → ℕ
last_event_id parse_int header = elim (trim_space header) [
  | [] ↦ 0
  | c ∷ cs ↦ not_negative (parse_int (c ∷ cs))
]

-- modelDisplayLabel
unfoldable pub model_display_label : Bytes → Bytes
model_display_label model = elim (trim_space model) [ [] ↦ codes "Proxy default" | c ∷ cs ↦ c ∷ cs ]
