-- ===== src/Proto/Kinds.antt =====
-- The frames as one type, their kinds, and the `type` text of each kind.
use native.Mathlib.Omega.{arith}
use prm.Prelude.{
  String, ◌≡◌, ◌↔◌, refl, sym, subst, ◌∙◌, Bool, true, false, if◌then◌else◌, ◌==◌, eq_iff, Option,
  some, [], ◌∷◌, Assoc, lookup, string_eq,
}
use prm.Proto.Frames.{
  AuthChallenge, AuthErr, AuthOk, AuthRequest, AuthResponse, ChanopOk, ChanopRequest, ChatHistory,
  ChatHistoryOk, Error, Hello, Join, Members, MembersOk, Msg, Part, Ping, Pong, Presence,
  SubscriptionCreate, SubscriptionDelete, SubscriptionDeleted, SubscriptionGet, SubscriptionList,
  SubscriptionListOk, SubscriptionOk, SubscriptionUpdate, Welcome,
}

-- `Frame`, the interface, with a constructor for each struct.
pub data Frame : Type 0 where
  hello : Hello → Frame
  welcome : Welcome → Frame
  auth_request : AuthRequest → Frame
  auth_challenge : AuthChallenge → Frame
  auth_response : AuthResponse → Frame
  auth_ok : AuthOk → Frame
  auth_err : AuthErr → Frame
  join : Join → Frame
  part : Part → Frame
  msg : Msg → Frame
  presence : Presence → Frame
  ping : Ping → Frame
  pong : Pong → Frame
  error : Error → Frame
  subscription_create : SubscriptionCreate → Frame
  subscription_list : SubscriptionList → Frame
  subscription_get : SubscriptionGet → Frame
  subscription_update : SubscriptionUpdate → Frame
  subscription_delete : SubscriptionDelete → Frame
  subscription_ok : SubscriptionOk → Frame
  subscription_list_ok : SubscriptionListOk → Frame
  subscription_deleted : SubscriptionDeleted → Frame
  chathistory : ChatHistory → Frame
  chathistory_ok : ChatHistoryOk → Frame
  members : Members → Frame
  members_ok : MembersOk → Frame
  chanop_pause_bot : ChanopRequest → Frame
  chanop_resume_bot : ChanopRequest → Frame
  chanop_ok : ChanopOk → Frame

pub data Kind : Type 0 where
  hello : Kind
  welcome : Kind
  auth_request : Kind
  auth_challenge : Kind
  auth_response : Kind
  auth_ok : Kind
  auth_err : Kind
  join : Kind
  part : Kind
  msg : Kind
  presence : Kind
  ping : Kind
  pong : Kind
  error : Kind
  subscription_create : Kind
  subscription_list : Kind
  subscription_get : Kind
  subscription_update : Kind
  subscription_delete : Kind
  subscription_ok : Kind
  subscription_list_ok : Kind
  subscription_deleted : Kind
  chathistory : Kind
  chathistory_ok : Kind
  members : Kind
  members_ok : Kind
  chanop_pause_bot : Kind
  chanop_resume_bot : Kind
  chanop_ok : Kind

unfoldable pub kind_of : Frame → Kind
kind_of (Frame.hello r) = Kind.hello
kind_of (Frame.welcome r) = Kind.welcome
kind_of (Frame.auth_request r) = Kind.auth_request
kind_of (Frame.auth_challenge r) = Kind.auth_challenge
kind_of (Frame.auth_response r) = Kind.auth_response
kind_of (Frame.auth_ok r) = Kind.auth_ok
kind_of (Frame.auth_err r) = Kind.auth_err
kind_of (Frame.join r) = Kind.join
kind_of (Frame.part r) = Kind.part
kind_of (Frame.msg r) = Kind.msg
kind_of (Frame.presence r) = Kind.presence
kind_of (Frame.ping r) = Kind.ping
kind_of (Frame.pong r) = Kind.pong
kind_of (Frame.error r) = Kind.error
kind_of (Frame.subscription_create r) = Kind.subscription_create
kind_of (Frame.subscription_list r) = Kind.subscription_list
kind_of (Frame.subscription_get r) = Kind.subscription_get
kind_of (Frame.subscription_update r) = Kind.subscription_update
kind_of (Frame.subscription_delete r) = Kind.subscription_delete
kind_of (Frame.subscription_ok r) = Kind.subscription_ok
kind_of (Frame.subscription_list_ok r) = Kind.subscription_list_ok
kind_of (Frame.subscription_deleted r) = Kind.subscription_deleted
kind_of (Frame.chathistory r) = Kind.chathistory
kind_of (Frame.chathistory_ok r) = Kind.chathistory_ok
kind_of (Frame.members r) = Kind.members
kind_of (Frame.members_ok r) = Kind.members_ok
kind_of (Frame.chanop_pause_bot r) = Kind.chanop_pause_bot
kind_of (Frame.chanop_resume_bot r) = Kind.chanop_resume_bot
kind_of (Frame.chanop_ok r) = Kind.chanop_ok

-- The constants `TypeHello` to `TypeChanopOK`.
unfoldable pub frame_type : Kind → String
frame_type Kind.hello = "hello"
frame_type Kind.welcome = "welcome"
frame_type Kind.auth_request = "auth_request"
frame_type Kind.auth_challenge = "auth_challenge"
frame_type Kind.auth_response = "auth_response"
frame_type Kind.auth_ok = "auth_ok"
frame_type Kind.auth_err = "auth_err"
frame_type Kind.join = "join"
frame_type Kind.part = "part"
frame_type Kind.msg = "msg"
frame_type Kind.presence = "presence"
frame_type Kind.ping = "ping"
frame_type Kind.pong = "pong"
frame_type Kind.error = "error"
frame_type Kind.subscription_create = "subscription_create"
frame_type Kind.subscription_list = "subscription_list"
frame_type Kind.subscription_get = "subscription_get"
frame_type Kind.subscription_update = "subscription_update"
frame_type Kind.subscription_delete = "subscription_delete"
frame_type Kind.subscription_ok = "subscription_ok"
frame_type Kind.subscription_list_ok = "subscription_list_ok"
frame_type Kind.subscription_deleted = "subscription_deleted"
frame_type Kind.chathistory = "chathistory"
frame_type Kind.chathistory_ok = "chathistory_ok"
frame_type Kind.members = "members"
frame_type Kind.members_ok = "members_ok"
frame_type Kind.chanop_pause_bot = "chanop_pause_bot"
frame_type Kind.chanop_resume_bot = "chanop_resume_bot"
frame_type Kind.chanop_ok = "chanop_ok"

-- The cases of the switch, in order.
abbrev cases : Assoc String Kind
cases =
    ("hello", Kind.hello)
    ∷ ("welcome", Kind.welcome)
    ∷ ("auth_request", Kind.auth_request)
    ∷ ("auth_challenge", Kind.auth_challenge)
    ∷ ("auth_response", Kind.auth_response)
    ∷ ("auth_ok", Kind.auth_ok)
    ∷ ("auth_err", Kind.auth_err)
    ∷ ("join", Kind.join)
    ∷ ("part", Kind.part)
    ∷ ("msg", Kind.msg)
    ∷ ("presence", Kind.presence)
    ∷ ("ping", Kind.ping)
    ∷ ("pong", Kind.pong)
    ∷ ("error", Kind.error)
    ∷ ("subscription_create", Kind.subscription_create)
    ∷ ("subscription_list", Kind.subscription_list)
    ∷ ("subscription_get", Kind.subscription_get)
    ∷ ("subscription_update", Kind.subscription_update)
    ∷ ("subscription_delete", Kind.subscription_delete)
    ∷ ("subscription_ok", Kind.subscription_ok)
    ∷ ("subscription_list_ok", Kind.subscription_list_ok)
    ∷ ("subscription_deleted", Kind.subscription_deleted)
    ∷ ("chathistory", Kind.chathistory)
    ∷ ("chathistory_ok", Kind.chathistory_ok)
    ∷ ("members", Kind.members)
    ∷ ("members_ok", Kind.members_ok)
    ∷ ("chanop_pause_bot", Kind.chanop_pause_bot)
    ∷ ("chanop_resume_bot", Kind.chanop_resume_bot)
    ∷ ("chanop_ok", Kind.chanop_ok)
    ∷ []

-- The struct that a line is read into; `none` is `ErrUnknownType`.
unfoldable pub frame_for_type : String → Option Kind
frame_for_type t = lookup t cases

pub frame_for_type-frame_type : (k : Kind) → frame_for_type (frame_type k) ≡ some k
unfolding frame_for_type frame_type lookup
frame_for_type-frame_type Kind.hello = refl
frame_for_type-frame_type Kind.welcome = refl
frame_for_type-frame_type Kind.auth_request = refl
frame_for_type-frame_type Kind.auth_challenge = refl
frame_for_type-frame_type Kind.auth_response = refl
frame_for_type-frame_type Kind.auth_ok = refl
frame_for_type-frame_type Kind.auth_err = refl
frame_for_type-frame_type Kind.join = refl
frame_for_type-frame_type Kind.part = refl
frame_for_type-frame_type Kind.msg = refl
frame_for_type-frame_type Kind.presence = refl
frame_for_type-frame_type Kind.ping = refl
frame_for_type-frame_type Kind.pong = refl
frame_for_type-frame_type Kind.error = refl
frame_for_type-frame_type Kind.subscription_create = refl
frame_for_type-frame_type Kind.subscription_list = refl
frame_for_type-frame_type Kind.subscription_get = refl
frame_for_type-frame_type Kind.subscription_update = refl
frame_for_type-frame_type Kind.subscription_delete = refl
frame_for_type-frame_type Kind.subscription_ok = refl
frame_for_type-frame_type Kind.subscription_list_ok = refl
frame_for_type-frame_type Kind.subscription_deleted = refl
frame_for_type-frame_type Kind.chathistory = refl
frame_for_type-frame_type Kind.chathistory_ok = refl
frame_for_type-frame_type Kind.members = refl
frame_for_type-frame_type Kind.members_ok = refl
frame_for_type-frame_type Kind.chanop_pause_bot = refl
frame_for_type-frame_type Kind.chanop_resume_bot = refl
frame_for_type-frame_type Kind.chanop_ok = refl

-- Each case stands under the text of its kind.
abbrev Named : Assoc String Kind → Type 0
Named [] = Unit {0}
Named ((t, k) ∷ rest) = (frame_type k ≡ t) × Named rest

cases-Named : Named cases
unfolding frame_type
cases-Named = (
  refl,
  (
    refl,
    (
      refl,
      (
        refl,
        (
          refl,
          (
            refl,
            (
              refl,
              (
                refl,
                (
                  refl,
                  (
                    refl,
                    (
                      refl,
                      (
                        refl,
                        (
                          refl,
                          (
                            refl,
                            (
                              refl,
                              (
                                refl,
                                (
                                  refl,
                                  (
                                    refl,
                                    (
                                      refl,
                                      (
                                        refl,
                                        (
                                          refl,
                                          (
                                            refl,
                                            (
                                              refl,
                                              (refl, (refl, (refl, (refl, (refl, (refl, tt)))))),
                                            ),
                                          ),
                                        ),
                                      ),
                                    ),
                                  ),
                                ),
                              ),
                            ),
                          ),
                        ),
                      ),
                    ),
                  ),
                ),
              ),
            ),
          ),
        ),
      ),
    ),
  ),
)

lookup-Named :
    (m : Assoc String Kind) (t : String) (k : Kind)
    → Named m
    → lookup t m ≡ some k
    → frame_type k ≡ t
unfolding lookup
lookup-Named [] t k n e = absurd (ground (arith, e))
lookup-Named ((s, j) ∷ m) t k n e = by_test (s == t) refl e (lookup-Named m t k n.1)
  where
    by_test :
        (b : Bool)
        → (s == t) ≡ b
        → (if b then some j else lookup t m) ≡ some k
        → (lookup t m ≡ some k → frame_type k ≡ t)
        → frame_type k ≡ t
    by_test true f h rest =
        let same : j ≡ k = cc in subst (λ x. frame_type x ≡ t) same (n.0 ∙ (eq_iff s t).0 f)
    by_test false f h rest = rest h

-- A text selects a struct exactly when it is the `type` of that struct's frames, for all 29 kinds.
pub frame_for_type_iff : (t : String) (k : Kind) → (frame_for_type t ≡ some k) ↔ (t ≡ frame_type k)
unfolding frame_for_type
frame_for_type_iff t k = (
  λ e. sym (lookup-Named cases t k cases-Named e),
  λ e. subst (λ s. frame_for_type s ≡ some k) (sym e) (frame_for_type-frame_type k),
)
