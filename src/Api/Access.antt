-- ===== src/Api/Access.antt =====
-- Who may use the API: the requests that a handler sees, what they change, and the messages that
-- reach a route of the socket.
use mathlib.Core.Path.{subst}
use nosana_node.Base.{
  String, str_eq, eq_iff, ◌≡◌, refl, sym, ap, ◌∙◌, ◌⊎◌, ◌↔◌, inl, inr, Bool, true, false, none,
  some, ◌∷◌, Result, ok, err, Result-cases, Option-cases, Bool-cases, arith,
}
use nosana_node.Base.Map
use nosana_node.Task.{Manager}
use nosana_node.Api.{
  Job, Sdk, Action, Route, act, stop_job, Request, Answer, replies, awaits, Reply, reply_text,
  failed_reply, error_message, all_statuses, status_of, current_group, group_of, Node, job_stopped,
  verify_job_owner, begin_action, handle_action, handle, post_service_stop, serve, SocketRoute,
  logs, task_logs, states, Socket, routed, silent, Message, admit, or_validate, with_job,
  verify_owner, verify_node_or_owner, on_message,
}

-- What a request may do to the node: begin an action on the task manager of its own job, or ask
-- for that job to be stopped.
abbrev pub Changes : Route → String → Node → Answer × Node → Type 0
Changes route job node served =
    ((action : Action) × (m : Manager) × (begun : Manager) × (route ≡ act action)
      × (Map.get job node.tasks ≡ some m)
      × (begin_action action m ≡ ok begun)
      × (served ≡ (awaits action, record node { tasks = Map.set job begun node.tasks })))
    ⊎ ((route ≡ stop_job) × (served.1 ≡ record node { events = job_stopped job ∷ node.events }))

-- An answer that leaves the node as it was.
abbrev pub OnlyReplies : Node → Answer × Node → Type 0
OnlyReplies node served = (reply : Reply) × (served ≡ (replies reply, node))

handle_action-Changes :
    (action : Action) (job : String) (node : Node)
    → OnlyReplies node (handle_action action job node)
      ⊎ Changes (act action) job node (handle_action action job node)
unfolding handle_action
handle_action-Changes action job node = elim (Option-cases (Map.get job node.tasks)) [
  | inl g ↦ inl (reply_text 400 "invalid job id", ground (arith, g))
  | inr (m, g) ↦ elim (Result-cases (begin_action action m)) [
    | inl (e, b) ↦ inl (failed_reply action (error_message "" e), ground (arith, g, b))
    | inr (begun, b) ↦ inr (inl (action, m, begun, refl, g, b, ground (arith, g, b)))
  ]
]

post_service_stop-Changes :
    (job : String) (node : Node)
    → OnlyReplies node (post_service_stop job node)
      ⊎ Changes stop_job job node (post_service_stop job node)
unfolding post_service_stop
post_service_stop-Changes job node = elim (Bool-cases (str_eq job "")) [
  | inl e ↦ inl (reply_text 400 "jobId path parameter is required", ground (arith, e))
  | inr e ↦ inr (inr (refl, ground (arith, e)))
]

handle-Changes :
    (route : Route) (job : String) (node : Node)
    → OnlyReplies node (handle route job node) ⊎ Changes route job node (handle route job node)
unfolding handle
handle-Changes (act action) job node = handle_action-Changes action job node
handle-Changes all_statuses job node = inl (_, refl)
handle-Changes (status_of id) job node = inl (_, refl)
handle-Changes current_group job node = inl (_, refl)
handle-Changes (group_of group) job node = inl (_, refl)
handle-Changes stop_job job node = post_service_stop-Changes job node

module _ {H : Type 0} (sdk : Sdk H) where
  -- The chain knows the job, and its project signed the header before the job's timeout.
  abbrev pub IsSigned : H → String → Type 0
  IsSigned header job =
      (found : Job) × (sdk.job_of job ≡ ok (some found))
      × (sdk.validate_header header found.timeout found.project ≡ ok true)

  verify_job_owner-IsSigned :
      (header : H) (job : String) → verify_job_owner sdk header job ≡ none → IsSigned header job
  unfolding verify_job_owner
  verify_job_owner-IsSigned header job h = elim (Bool-cases (str_eq job "")) [
    | inl e ↦ absurd (ground (arith, e))
    | inr e ↦ elim (Result-cases (sdk.job_of job)) [
      | inl (x, r) ↦ absurd (ground (arith, e, r))
      | inr (none, r) ↦ absurd (ground (arith, e, r))
      | inr (some found, r) ↦
          elim (Result-cases (sdk.validate_header header found.timeout found.project)) [
            | inl (x, v) ↦ absurd (ground (arith, e, r, v))
            | inr (true, v) ↦ (found, r, v)
            | inr (false, v) ↦ absurd (ground (arith, e, r, v))
          ]
    ]
  ]

  -- A request leaves the node as it was and is answered at once, or its header is signed by the
  -- project of the job it names, and it changes only what that job's owner may: it begins its
  -- action on the task manager of the job, which accepts it, or it has the job stopped.
  pub serve-IsSigned :
      (request : Request H) (node : Node)
      → OnlyReplies node (serve sdk request node)
        ⊎ (IsSigned request.header request.job
            × Changes request.route request.job node (serve sdk request node))
  unfolding serve
  serve-IsSigned request node =
      elim (Option-cases (verify_job_owner sdk request.header request.job)) [
        | inl allowed ↦ elim (handle-Changes request.route request.job node) [
          | inl (reply, e) ↦ inl (reply, ground (arith, allowed, e))
          | inr changes ↦ inr (
            verify_job_owner-IsSigned request.header request.job allowed,
            rw (serve, allowed) changes,
          )
        ]
        | inr (refusal, refused) ↦ inl (refusal, ground (arith, refused))
      ]

  -- The path of a route of the socket.
  abbrev pub path_of : SocketRoute → String
  path_of logs = "/log"
  path_of task_logs = "/flog"
  path_of states = "/status"

  -- Whether a signature by this project, or by the node where the route allows it, is accepted.
  abbrev pub IsAccepted : SocketRoute → Message H → String → Type 0
  IsAccepted states m project =
      (sdk.validate m.header project ≡ ok true)
      ⊎ ((sdk.validate m.header project ≡ ok false) × (sdk.validate m.header sdk.wallet ≡ ok true))
  IsAccepted route m project = sdk.validate m.header project ≡ ok true

  -- The signatures that the middleware of a route asks for.
  abbrev pub signature : SocketRoute → Message H → String → Result {0, 0} String Bool
  signature states m project =
      or_validate (sdk.validate m.header project) (sdk.validate m.header sdk.wallet)
  signature route m project = sdk.validate m.header project

  signature_iff :
      (route : SocketRoute) (m : Message H) (project : String)
      → (signature route m project ≡ ok true) ↔ IsAccepted route m project
  signature_iff logs m project = (λ h. h, λ h. h)
  signature_iff task_logs m project = (λ h. h, λ h. h)
  signature_iff states m project = elim (Result-cases (sdk.validate m.header project)) [
    | inl (e, v) ↦ ground (arith, v)
    | inr (true, v) ↦ ground (arith, v)
    | inr (false, v) ↦ ground (arith, v)
  ]

  -- What follows the path: the job, and the signatures that the route asks for.
  abbrev pub checked : SocketRoute → Message H → Socket
  checked route m = with_job sdk m.job (λ found. admit route (signature route m found.project))

  on_message-eq :
      (route : SocketRoute) (m : Message H)
      → m.path ≡ path_of route
      → on_message sdk (some m) ≡ checked route m
  unfolding on_message verify_owner verify_node_or_owner
  on_message-eq logs m h = rw h refl
  on_message-eq task_logs m h = rw h refl
  on_message-eq states m h = rw h refl

  admit-routed :
      (route asked : SocketRoute) (result : Result {0, 0} String Bool)
      → admit asked result ≡ routed route
      → (asked ≡ route) × (result ≡ ok true)
  admit-routed route asked (err e) h = cc
  admit-routed route asked (ok true) h = (cc, refl)
  admit-routed route asked (ok false) h = cc

  -- What a message asks for that reaches a route.
  abbrev pub IsAllowed : SocketRoute → Message H → Type 0
  IsAllowed route m =
      (str_eq m.job "" ≡ false)
      × (found : Job) × (sdk.job_of m.job ≡ ok (some found))
      × IsAccepted route m found.project

  checked-eq :
      (asked : SocketRoute) (m : Message H) (found : Job)
      → str_eq m.job "" ≡ false
      → sdk.job_of m.job ≡ ok (some found)
      → checked asked m ≡ admit asked (signature asked m found.project)
  unfolding with_job
  checked-eq asked m found named known = rw (named, known) refl

  checked-routed :
      (route asked : SocketRoute) (m : Message H)
      → checked asked m ≡ routed route
      → (asked ≡ route) × IsAllowed asked m
  unfolding with_job
  checked-routed route asked m h = elim (Bool-cases (str_eq m.job "")) [
    | inl e ↦ absurd (ground (arith, e))
    | inr e ↦ elim (Result-cases (sdk.job_of m.job)) [
      | inl (x, r) ↦ absurd (ground (arith, e, r))
      | inr (none, r) ↦ absurd (ground (arith, e, r))
      | inr (some found, r) ↦
          let sent = signature asked m found.project in
          let routed_by = admit-routed route asked sent (sym (checked-eq asked m found e r) ∙ h) in
          (routed_by.0, (e, found, r, (signature_iff asked m found.project).0 routed_by.1))
    ]
  ]

  checked-allowed :
      (route : SocketRoute) (m : Message H) → IsAllowed route m → checked route m ≡ routed route
  checked-allowed route m (named, found, known, accepted) =
      checked-eq route m found named known
      ∙ rw ((signature_iff route m found.project).1 accepted) refl

  on_message-path :
      (route : SocketRoute) (m : Message H)
      → on_message sdk (some m) ≡ routed route
      → (asked : SocketRoute) × (m.path ≡ path_of asked)
  unfolding on_message
  on_message-path route m h = elim (Bool-cases (str_eq m.path "/log")) [
    | inl e ↦ (logs, ground (arith, e, eq_iff m.path "/log"))
    | inr e ↦ elim (Bool-cases (str_eq m.path "/flog")) [
      | inl f ↦ (task_logs, ground (arith, f, eq_iff m.path "/flog"))
      | inr f ↦ elim (Bool-cases (str_eq m.path "/status")) [
        | inl g ↦ (states, ground (arith, g, eq_iff m.path "/status"))
        | inr g ↦ absurd (ground (arith, e, f, g))
      ]
    ]
  ]

  -- A message reaches a route exactly if it names the route and a job that the chain knows, and
  -- that job's project signed it, or, for the route of the node's state, the node itself did.
  pub on_message_iff :
      (route : SocketRoute) (m : Message H)
      → (on_message sdk (some m) ≡ routed route) ↔ ((m.path ≡ path_of route) × IsAllowed route m)
  on_message_iff route m = (
    λ h.
        let (asked, named) = on_message-path route m h in
        let allowed = checked-routed route asked m (sym (on_message-eq asked m named) ∙ h) in
        (named ∙ ap path_of allowed.0, subst (λ r. IsAllowed r m) allowed.0 allowed.1),
    λ h. on_message-eq route m h.0 ∙ checked-allowed route m h.1,
  )

  -- A message whose signature is not accepted is neither answered nor has its socket closed.
  pub on_message-silent :
      (route : SocketRoute) (m : Message H) (found : Job)
      → m.path ≡ path_of route
      → str_eq m.job "" ≡ false
      → sdk.job_of m.job ≡ ok (some found)
      → signature route m found.project ≡ ok false
      → on_message sdk (some m) ≡ silent
  on_message-silent route m found path named known refused =
      on_message-eq route m path ∙ checked-eq route m found named known ∙ rw refused refl
