-- ===== src/Nat/Dispatcher.antt =====
-- src/nat/message_dispatcher.{h,cpp}: a handler for every type of message. A handler works on a state
-- of its own; the log lines are left out.
mod Tests
use natt.Prelude.{
  ℕ, ◌-◌, ◌≡◌, refl, sym, ap, ◌∙◌, Bool, true, false, not, Option, none, some, if◌then◌else◌,
  is_some, Text, txt, text_eq, Dict, lookup, insert, erase, lookup-insert, lookup-erase,
}
use natt.Json.{JsonLib, ◌>>=◌}

module _ (lib : JsonLib) (W : Type 0) where
  open lib use {Json, has_key, text_at}

  -- What a handler makes of the session, the node id and the message.
  abbrev pub Handler : Type 0
  Handler = ℕ → Text → Json → W → W

  abbrev pub Handlers : Type 0
  Handlers = Dict Handler

  unfoldable pub register_handler : Text → Handler → Handlers → Handlers
  register_handler type handler handlers = insert type handler handlers

  unfoldable pub unregister_handler : Text → Handlers → Handlers
  unregister_handler type handlers = erase type handlers

  unfoldable pub has_handler : Text → Handlers → Bool
  has_handler type handlers = is_some (lookup type handlers)

  -- `none` is the exception where the type is not a text.
  unfoldable pub dispatch_message : ℕ → Text → Json → Handlers → W → Option (W × Bool)
  dispatch_message session node_id msg handlers w =
      if not (has_key msg (txt "type")) then some (w, false) else (do
        type ← text_at msg (txt "type")
        elim (lookup type handlers) [
          | none ↦ some (w, false)
          | some handler ↦ some (handler session node_id msg w, true)
        ])

  -- A message of a type runs the handler that was registered for the type last, whatever was
  -- registered for other types, and reports it; once the handler is taken away, the message changes
  -- nothing and is reported as not handled.
  pub dispatch_message_lem :
      (session : ℕ) (node_id type j : Text) (msg : Json) (handler : Handler) (handlers : Handlers)
      (w : W)
      → has_key msg (txt "type") ≡ true
      → text_at msg (txt "type") ≡ some type
      → (dispatch_message session node_id msg (register_handler j handler handlers) w ≡ (
          if text_eq j type
          then some (handler session node_id msg w, true)
          else dispatch_message session node_id msg handlers w))
        × (dispatch_message session node_id msg (unregister_handler j handlers) w ≡ (
            if text_eq j type
            then some (w, false)
            else dispatch_message session node_id msg handlers w))
  unfolding dispatch_message register_handler unregister_handler
  dispatch_message_lem session node_id type j msg handler handlers w there named = (
    known (register_handler j handler handlers)
        ∙ ap to (lookup-insert j type handler handlers)
        ∙ chosen (text_eq j type) (some handler),
    known (unregister_handler j handlers)
        ∙ ap to (lookup-erase j type handlers)
        ∙ chosen (text_eq j type) none,
  )
    where
      to : Option Handler → Option (W × Bool)
      to o = elim o [ none ↦ some (w, false) | some h ↦ some (h session node_id msg w, true) ]

      known : (hs : Handlers) → dispatch_message session node_id msg hs w ≡ to (lookup type hs)
      known hs = rw (there, named) refl

      chosen :
          (b : Bool) (o : Option Handler)
          → to (if b then o else lookup type handlers)
            ≡ (if b then to o else dispatch_message session node_id msg handlers w)
      chosen true o = refl
      chosen false o = sym (known handlers)
