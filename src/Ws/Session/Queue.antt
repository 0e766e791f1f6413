-- ===== src/Ws/Session/Queue.antt =====
-- src/ws/ws_session.cpp: when the write queue is in order, and how it grows.
use natt.Prelude.{
  append_nil, append_assoc, ◌≤◌, ◌≡◌, refl, sym, ap, ◌∙◌, true, false, List, [], ◌∷◌, ◌++◌, arith,
  is_empty, Text,
}
use natt.Ws.Session.{Task, sends, closes, Session, send_json, send_all}

abbrev pub texts_of : List Task → List Text
texts_of [] = []
texts_of (sends msg ∷ ts) = msg ∷ texts_of ts
texts_of (closes reason ∷ ts) = texts_of ts

-- All messages that were ever sent to the session, first what is written, last what is posted.
abbrev pub history : Session → List Text
history s = s.written ++ (s.write_queue ++ texts_of s.posted)

-- At most one write is under way, of a message at the front; where no write is, none waits.
abbrev pub Orderly : Session → Type 0
Orderly s =
    (s.in_flight ≤ 1)
    × (s.in_flight ≡ 1 → (s.writing ≡ true) × (is_empty s.write_queue ≡ false))
    × (s.writing ≡ false → s.write_queue ≡ [])

-- From one session to the next, the messages stay what they are, and more may follow.
abbrev pub Grows : Session → Session → Type 0
Grows s t = (more : List Text) × (history t ≡ history s ++ more)

-- The queue is good, and has grown.
abbrev pub Keeps : Session → Session → Type 0
Keeps s t = Orderly t × Grows s t

texts_of-append : (ts us : List Task) → texts_of (ts ++ us) ≡ texts_of ts ++ texts_of us
texts_of-append [] us = refl
texts_of-append (sends msg ∷ ts) us = ap (◌∷◌ msg) (texts_of-append ts us)
texts_of-append (closes reason ∷ ts) us = texts_of-append ts us

pub Grows-same : (s t : Session) → history t ≡ history s → Grows s t
Grows-same s t e = ([], e ∙ sym (append_nil (history s)))

pub Grows-trans : (s t u : Session) → Grows s t → Grows t u → Grows s u
Grows-trans s t u (m, e) (n, f) =
    (m ++ n, f ∙ ap (λ (xs : List Text). xs ++ n) e ∙ append_assoc (history s) m n)

Grows-send_json : (msg : Text) (s : Session) → Grows s (send_json msg s)
unfolding send_json
Grows-send_json msg s = (
  msg ∷ [],
  ap (λ (xs : List Text). s.written ++ (s.write_queue ++ xs))
        (texts_of-append s.posted (sends msg ∷ []))
      ∙ ap (λ (xs : List Text). s.written ++ xs)
          (sym (append_assoc s.write_queue (texts_of s.posted) (msg ∷ [])))
      ∙ sym (append_assoc s.written (s.write_queue ++ texts_of s.posted) (msg ∷ [])),
)

Grows-send_all : (ms : List Text) (s : Session) → Grows s (send_all ms s)
unfolding send_all
Grows-send_all [] s = Grows-same s s refl
Grows-send_all (m ∷ ms) s =
    Grows-trans s (send_json m s) (send_all ms (send_json m s)) (Grows-send_json m s)
      (Grows-send_all ms (send_json m s))

Orderly-send_all : (ms : List Text) (s : Session) → Orderly s → Orderly (send_all ms s)
unfolding send_all send_json
Orderly-send_all [] s h = h
Orderly-send_all (m ∷ ms) s h = Orderly-send_all ms (send_json m s) h

-- A session that has been given more to do, with its queue untouched.
abbrev pub Quiet : Session → Session → Type 0
Quiet s t =
    (t.in_flight ≡ s.in_flight)
    × (t.writing ≡ s.writing)
    × (t.write_queue ≡ s.write_queue)
    × (t.written ≡ s.written)
    × ((more : List Task) × (t.posted ≡ s.posted ++ more))

pub Quiet-Orderly : (s t : Session) → Quiet s t → Orderly s → Orderly t
Quiet-Orderly s t (a, b, c, d, e) (h, k, l) =
    (omega (arith, a, h), ground (arith, a, b, c, k), ground (arith, b, c, l))

pub Quiet-Grows : (s t : Session) → Quiet s t → Grows s t
Quiet-Grows s t (a, b, c, d, (more, e)) = (
  texts_of more,
  rw (c, d, e, texts_of-append s.posted more)
      (ap (λ (xs : List Text). s.written ++ xs)
          (sym (append_assoc s.write_queue (texts_of s.posted) (texts_of more)))
        ∙ sym (append_assoc s.written (s.write_queue ++ texts_of s.posted) (texts_of more))),
)
