-- ===== src/Front/Messages/Shown.antt =====
-- About the messages of front.go, from one response to the next pages.
use yggdrasil_authentication.Base.{
  ◌≡◌, ◌≢◌, refl, Option, none, some, List, [], ◌∷◌, ◌++◌, ◌==◌, text_eq, text_beq_iff, Text, text,
  if◌then◌else◌, append-nil, arith, false,
}
use yggdrasil_authentication.Base.Int.{pos, ltb_ℤ}
use yggdrasil_authentication.Types.{ok, err, Messages}
use yggdrasil_authentication.Platform.{Platform}
use yggdrasil_authentication.Platform.Laws.{QueryLaws}
use yggdrasil_authentication.Action.{App, Handler, Cookie, World, next}
use yggdrasil_authentication.Front.{Request, refuse}
use yggdrasil_authentication.Front.Messages.{message_cookie, last_message, page_messages}

-- What a browser holds after it received the cookies of a response: the last one under a name counts,
-- and one with a negative age is deleted.
unfoldable pub receive : List Cookie → (Text → Option Text) → Text → Option Text
receive [] jar = jar
receive (c ∷ cs) jar = receive cs λ name.
    if c.name == name then (if ltb_ℤ c.max_age (pos 0) then none else some c.value) else jar name

receive-append :
    (xs ys : List Cookie) (jar : Text → Option Text)
    → receive (xs ++ ys) jar ≡ receive ys (receive xs jar)
unfolding receive
receive-append [] ys jar = refl
receive-append (c ∷ xs) ys jar = receive-append xs ys _

-- The request of a browser that holds cookies.
abbrev pub with_cookies : (Text → Option Text) → Request → Request
with_cookies jar req = record req { cookie = jar }

module _ ⦃P : Platform⦄ where
  -- What one message of a page shows and clears.
  shown : Text → Request → Text
  shown name req = elim (req.cookie name) [
    | none ↦ []
    | some value ↦
        if value == []
        then []
        else elim (P.query_unescape value) [ err e ↦ [] | ok decoded ↦ decoded ]
  ]

  cleared : Text → Request → List Cookie
  cleared name req = elim (req.cookie name) [
    | none ↦ []
    | some value ↦
        if value == []
        then []
        else elim (P.query_unescape value) [ err e ↦ [] | ok decoded ↦ message_cookie name [] ∷ [] ]
  ]

  last_message_lem :
      (name : Text) (req : Request) (w : World P)
      → last_message name req w
        ≡ (next (shown name req), record w { set_cookies = w.set_cookies ++ cleared name req })
  unfolding last_message shown cleared
  last_message_lem name req w = ground (arith, append-nil w.set_cookies)

  abbrev all_shown : Request → Messages
  all_shown req = record {
    success = shown (text "successMessage") req;
    warning = shown (text "warningMessage") req;
    error = shown (text "errorMessage") req;
  }

  page_messages_lem :
      (req : Request) (w : World P)
      → (earlier : List Cookie) × (page_messages req w ≡ (
        next (all_shown req),
        record w { set_cookies = earlier ++ cleared (text "errorMessage") req },
      ))
  unfolding page_messages
  page_messages_lem req w =
      let c1 = w.set_cookies ++ cleared (text "successMessage") req in
      let c2 = c1 ++ cleared (text "warningMessage") req in
      (
        c2,
        ground (
          arith,
          last_message_lem (text "successMessage") req w,
          last_message_lem (text "warningMessage") req (record w { set_cookies = c1 }),
          last_message_lem (text "errorMessage") req (record w { set_cookies = c2 }),
        ),
      )

  received :
      (earlier : List Cookie) (name message : Text) (jar : Text → Option Text)
      → receive (earlier ++ message_cookie name message ∷ []) jar name
        ≡ some (P.query_escape message)
  unfolding receive
  received earlier name message jar =
      rw (receive-append earlier (message_cookie name message ∷ []) jar)
        (ground (arith, text_beq_iff name name))

  -- A response that sends the browser back with a message.
  abbrev pub refused : App P → Text → Text → Handler
  refused app url message = refuse app url message

  module _ (app : App P) (laws : QueryLaws P) where
    shown_cookie :
        (name message : Text) (req : Request)
        → message ≢ []
        → req.cookie name ≡ some (P.query_escape message)
        → (shown name req ≡ message) × (cleared name req ≡ message_cookie name [] ∷ [])
    unfolding shown cleared
    shown_cookie name message req some_message held =
        let value : P.query_escape message == [] ≡ false = ground (
          arith,
          some_message,
          laws.query_escape_some message,
          text_beq_iff (P.query_escape message) [],
        ) in
        let read = laws.query_unescape-query_escape message in
        (ground (arith, held, value, read), ground (arith, held, value, read))

    shown_empty :
        (name : Text) (req : Request)
        → req.cookie name ≡ some (P.query_escape [])
        → shown name req ≡ []
    unfolding shown
    shown_empty name req held =
        ground (arith, held, laws.query_escape_empty, text_beq_iff (P.query_escape []) [])

    -- A message that a handler refuses a request with is the error message of the next page that the
    -- browser asks for, and of no page after that one, if it is not empty and the browser receives no
    -- other cookies meanwhile. This rests on the documented behaviour of net/url.
    pub page_messages-refuse :
        (url message : Text) (jar : Text → Option Text) (req again : Request) (w w1 w2 : World P)
        → message ≢ []
        → (m m' : Messages) × (w1' w2' : World P) × (page_messages
              (with_cookies (receive (refused app url message w).1.set_cookies jar) req)
              w1
            ≡ (next m, w1'))
          × (m.error ≡ message)
          × (page_messages
                (with_cookies
                  (receive w1'.set_cookies (receive (refused app url message w).1.set_cookies jar))
                  again)
                w2
              ≡ (next m', w2'))
          × (m'.error ≡ [])
    page_messages-refuse url message jar req again w w1 w2 some_message =
        let jar1 = receive (refused app url message w).1.set_cookies jar in
        let held : jar1 (text "errorMessage") ≡ some (P.query_escape message) =
          received w.set_cookies (text "errorMessage") message jar in
        let (appears, clears) =
          shown_cookie (text "errorMessage") message (with_cookies jar1 req) some_message held in
        let (earlier, runs) = page_messages_lem (with_cookies jar1 req) w1 in
        let cookies = earlier ++ cleared (text "errorMessage") (with_cookies jar1 req) in
        let gone : receive cookies jar1 (text "errorMessage") ≡ some (P.query_escape []) =
          rw clears (received earlier (text "errorMessage") [] jar1) in
        let (_, runs') = page_messages_lem (with_cookies (receive cookies jar1) again) w2 in
        (
          _,
          _,
          _,
          _,
          runs,
          appears,
          runs',
          shown_empty (text "errorMessage") (with_cookies (receive cookies jar1) again) gone,
        )
