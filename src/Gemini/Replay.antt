-- ===== src/Gemini/Replay.antt =====
-- internal/model/gemini/gemini.go: a turn of the model comes back as it was sent.
use kube_cure.Prelude.{
  ◌≡◌, refl, ap, sym, ◌∙◌, Option, none, some, List, [], ◌∷◌, ◌++◌, arith, append_assoc,
}
use kube_cure.Text.{Text}
use kube_cure.Genai.{Part, Content, Config, Reply, FunctionCall}
use kube_cure.Agent.Model.{Role, Message, Request, Response, ModelError, Result, ok, err}
use kube_cure.Gemini.Convert.{Codec, ◌>>=◌, bind-inverse, to_contents, contents_of, model_content}
use kube_cure.Gemini.Generate.{
  Client, read_call, read_part, read_parts, empty_reply, response_to, received, sent, generate,
  request_of, first_content, as_model_error,
}

-- What a turn of the model carries.
abbrev pub Carries : Content → Message → Type 0
Carries c msg = (msg.role ≡ Role.model) × (msg.provider_state ≡ some c)

module _ (codec : Codec) where
  read_part-Carries :
      (c : Content) (part : Part) (call : Option FunctionCall) (reply reply' : Message)
      → Carries c reply
      → read_part codec part call reply ≡ ok reply'
      → Carries c reply'
  unfolding read_part read_call
  read_part-Carries c part (some call) reply reply' h e = ground arith
  read_part-Carries c part none reply reply' h e = ground arith

  pub read_parts-Carries :
      (c : Content) (parts : List Part) (reply reply' : Message)
      → Carries c reply
      → read_parts codec parts reply ≡ ok reply'
      → Carries c reply'
  unfolding read_parts
  read_parts-Carries c [] reply reply' h e = ground arith
  read_parts-Carries c (part ∷ rest) reply reply' h e =
      let (next, one, more) =
        bind-inverse (read_part codec part part.function_call reply) (λ m. read_parts codec rest m)
          e in
      read_parts-Carries c rest next reply'
        (read_part-Carries c part part.function_call reply next h one) more

  -- A response is to the first candidate's content, and carries it.
  response-Carries :
      (reply : Reply) (o : Option Content) (r : Response)
      → response_to codec reply o ≡ ok r
      → (c : Content) × (o ≡ some c) × Carries c r.message
  unfolding response_to empty_reply
  response-Carries reply none r h = absurd (ground arith)
  response-Carries reply (some c) r h =
      let (message, read, whole) = bind-inverse (read_parts codec c.parts (empty_reply c)) _ h in
      let carried = read_parts-Carries c c.parts (empty_reply c) message (refl, refl) read in
      (c, refl, ground arith)

  to_contents-cons :
      (c : Content) (msg : Message) (after : List Message)
      → Carries c msg
      → to_contents codec (msg ∷ after) ≡ (to_contents codec after >>= λ cs. ok (c ∷ cs))
  unfolding to_contents contents_of model_content
  to_contents-cons c msg after (role, state) = rw (role, state) refl

  regroup :
      (c : Content) (here before after : Result Text (List Content))
      → (here >>= λ hs.
          (before >>= λ cs. after >>= λ ds. ok (cs ++ c ∷ ds)) >>= λ ls. ok (hs ++ ls))
        ≡ ((here >>= λ hs. before >>= λ ls. ok (hs ++ ls)) >>= λ cs.
            after >>= λ ds. ok (cs ++ c ∷ ds))
  regroup c (err e) before after = refl
  regroup c (ok hs) (err e) after = refl
  regroup c (ok hs) (ok cs) (err e) = refl
  regroup c (ok hs) (ok cs) (ok ds) = ap ok (sym (append_assoc hs cs (c ∷ ds)))

  -- The content stands at the message's place in the conversation.
  pub to_contents-middle :
      (before : List Message) (c : Content) (msg : Message) (after : List Message)
      → Carries c msg
      → to_contents codec (before ++ msg ∷ after)
        ≡ (to_contents codec before >>= λ cs. to_contents codec after >>= λ ds. ok (cs ++ c ∷ ds))
  unfolding to_contents
  to_contents-middle [] c msg after h = to_contents-cons c msg after h
  to_contents-middle (m ∷ before) c msg after h =
      ap (λ rest. contents_of codec m m.role >>= λ hs. rest >>= λ ls. ok (hs ++ ls))
        (to_contents-middle before c msg after h)
      ∙ regroup c (contents_of codec m m.role) (to_contents codec before) (to_contents codec after)

abbrev pub Answered : {W : Type 0} → Codec → Client W → Text → Request → W → Content → W → Type 0
Answered codec client name req w c w' =
    (contents : List Content) × (config : Config) × (reply : Reply) × (request_of codec req
      ≡ ok (contents, config))
    × (client.generate_content name contents config w ≡ (ok reply, w'))
    × (first_content reply.candidates ≡ some c)

as_model_error-ok : {A : Type 0} {a : A} (x : Result Text A) → as_model_error x ≡ ok a → x ≡ ok a
as_model_error-ok (ok b) h = ground arith
as_model_error-ok (err why) h = absurd (ground arith)

pub received-ok :
    {W : Type 0} (codec : Codec) (a : Result ModelError Reply × W) (r : Response) (w' : W)
    → received codec a ≡ (ok r, w')
    → (reply : Reply) × (a ≡ (ok reply, w'))
      × (response_to codec reply (first_content reply.candidates) ≡ ok r)
unfolding received
received-ok codec (err e, w) r w' h = absurd (ground arith)
received-ok codec (ok reply, w) r w' h = (
  reply,
  ap (λ v. (ok reply, v)) (ap (λ p. p.1) h),
  as_model_error-ok (response_to codec reply (first_content reply.candidates)) (ap (λ p. p.0) h),
)

pub sent-ok :
    {W : Type 0} (codec : Codec) (client : Client W) (name : Text)
    (q : Result Text (List Content × Config)) (w : W) (r : Response) (w' : W)
    → sent codec client name q w ≡ (ok r, w')
    → (contents : List Content) × (config : Config) × (q ≡ ok (contents, config))
      × (received codec (client.generate_content name contents config w) ≡ (ok r, w'))
unfolding sent
sent-ok codec client name (err why) w r w' h = absurd (ground arith)
sent-ok codec client name (ok (contents, config)) w r w' h = (contents, config, refl, h)

-- A response that Gemini gives is replayed unchanged: the first candidate's content, with whatever
-- thought signatures its parts bear, is what stands for the model's turn in the contents of every
-- later conversation, at the turn's place, whatever comes before and after it.
pub turn_replayed :
    {W : Type 0} (codec : Codec) (client : Client W) (name : Text) (req : Request) (w : W)
    (r : Response) (w' : W) (before after : List Message)
    → generate codec client name req w ≡ (ok r, w')
    → (c : Content) × Answered codec client name req w c w'
      × (to_contents codec (before ++ r.message ∷ after) ≡ (
          to_contents codec before >>= λ cs. to_contents codec after >>= λ ds. ok (cs ++ c ∷ ds)))
unfolding generate
turn_replayed codec client name req w r w' before after h =
    let (contents, config, asked, answered) =
      sent-ok codec client name (request_of codec req) w r w' h in
    let (reply, fetched, read) =
      received-ok codec (client.generate_content name contents config w) r w' answered in
    let (c, first, carried) =
      response-Carries codec reply (first_content reply.candidates) r read in
    (
      c,
      (contents, config, reply, asked, fetched, first),
      to_contents-middle codec before c r.message after carried,
    )
