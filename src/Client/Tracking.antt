-- ===== src/Client/Tracking.antt =====
-- The permission that the client keeps (src/handlers/ClientHandlers.cpp, src/core/Client.cpp).
use asinc_roulette.Base.{
  ℕ, String, ◌≡◌, refl, sym, All, inl, inr, Bool, true, false, not, ◌||◌, [], ◌∷◌, none, some,
  arith, ◌==◌, nat_eq, string_eq, Option-cases, Bool-cases, all, if◌then◌else◌,
}
use asinc_roulette.Base.Map.{lookup, lookup-All, all-lookup}
use asinc_roulette.Handlers.{Handlers, select}
use asinc_roulette.Permissions
use asinc_roulette.Permissions.{allows}
use asinc_roulette.Server.State.{Answer, Content}
use asinc_roulette.Client.Answers.{
  Client, ClientHandler, permission_of, message_of, takes_permission, says, shows, client_handlers,
  reported, session_input,
}

-- The commands whose answers tell the client its permission.
abbrev pub is_tracked : String → Bool
is_tracked command =
    command == "signin"
    || command == "signout"
    || command == "join"
    || command == "create"
    || command == "leave"
    || command == "sync"

-- The permission after an answer that tells one, for a command that is tracked or not.
abbrev pub after : Bool → Content → ℕ → ℕ
after tracked content permission = elim (permission_of content) [
  | none ↦ permission
  | some new ↦ if tracked then new else permission
]

-- What the client knows after an answer.
abbrev pub known : Answer → ℕ → ℕ
known a permission =
    if a.status == "error" then permission else after (is_tracked a.command) a.content permission

abbrev Follows : String → ClientHandler → Type 0
Follows name h =
    (content : Content) (c : Client)
    → (h content c).1.permission ≡ after (is_tracked name) content c.permission

takes_permission-follows :
    (success : String) (content : Content) (c : Client)
    → (takes_permission success content c).1.permission ≡ after true content c.permission
unfolding takes_permission
takes_permission-follows success content c = elim (Option-cases (permission_of content)) [
  | inl e ↦ rw (takes_permission, e, after) refl
  | inr (p, e) ↦ rw (takes_permission, e, after) refl
]

after-false : (content : Content) (permission : ℕ) → after false content permission ≡ permission
after-false content permission = ground arith

shows-follows :
    (fits : Content → Bool) (content : Content) (c : Client)
    → (shows fits content c).1.permission ≡ after false content c.permission
unfolding shows
shows-follows fits content c = elim (Bool-cases (fits content)) [
  | inl good ↦ rw good (sym (after-false content c.permission))
  | inr bad ↦ rw bad (sym (after-false content c.permission))
]

says-follows :
    (success : String) (content : Content) (c : Client)
    → (says success content c).1.permission ≡ after false content c.permission
says-follows success content c = sym (after-false content c.permission)

handlers_follow : All (λ (en : String × (ℕ × ClientHandler)). Follows en.0 en.1.1) client_handlers
unfolding client_handlers
handlers_follow = (
  takes_permission-follows _,
  (
    takes_permission-follows _,
    (
      takes_permission-follows _,
      (
        takes_permission-follows _,
        (
          takes_permission-follows _,
          (
            shows-follows _,
            (
              shows-follows _,
              (
                shows-follows _,
                (
                  takes_permission-follows _,
                  (
                    says-follows "",
                    (
                      says-follows "",
                      (
                        shows-follows _,
                        (
                          says-follows "",
                          (
                            shows-follows _,
                            (shows-follows _, (shows-follows _, (says-follows "", tt))),
                          ),
                        ),
                      ),
                    ),
                  ),
                ),
              ),
            ),
          ),
        ),
      ),
    ),
  ),
)

missing :
    (k : String) (m : Handlers ClientHandler)
    → lookup k m ≡ none
    → all (λ en. not (k == en.0)) m ≡ true
unfolding lookup
missing k [] h = refl
missing k ((j, v) ∷ m) h = elim (Bool-cases (k == j)) [
  | inl hit ↦ absurd (ground arith)
  | inr miss ↦ let rest = missing k m (ground arith) in ground arith
]

untracked :
    (k : String)
    → all (λ (en : String × (ℕ × ClientHandler)). not (k == en.0)) client_handlers ≡ true
    → is_tracked k ≡ false
unfolding client_handlers
untracked k h = ground arith

reported-keeps :
    (command : String) (content : Content) (c : Client)
    → (reported command content c).1.permission ≡ c.permission
reported-keeps command content c = elim (Option-cases (message_of content)) [
  | inl e ↦ rw (reported, e) refl
  | inr (p, e) ↦ rw (reported, e) refl
]

all_allowed :
    all (λ (en : String × (ℕ × ClientHandler)). en.1.0 == Permissions.all) client_handlers ≡ true
unfolding client_handlers
all_allowed = refl

-- While the client has any permission at all, the answers to `signin`, `signout`, `join`, `create`,
-- `leave` and `sync` set its permission to the one they carry, and no other answer changes it.
pub session_input-known :
    (a : Answer) (c : Client)
    → allows c.permission Permissions.all ≡ true
    → (session_input a c).1.permission ≡ known a c.permission
unfolding session_input select
session_input-known a c allowed = elim (Bool-cases (a.status == "error")) [
  | inl failed ↦ rw failed (reported-keeps a.command a.content c)
  | inr fine ↦ elim (Option-cases (lookup a.command client_handlers)) [
    | inl absent ↦
        let unknown = untracked a.command (missing a.command client_handlers absent) in
        rw (fine, session_input, select, absent, unknown) (sym (after-false a.content c.permission))
    | inr ((needed, h), found) ↦
        let row =
          all-lookup (λ (en : String × (ℕ × ClientHandler)). en.1.0 == Permissions.all) a.command
            client_handlers all_allowed found in
        let for_everyone : needed ≡ Permissions.all = ground arith in
        let granted : allows c.permission needed ≡ true = rw for_everyone allowed in
        rw (fine, session_input, select, found, granted)
          (lookup-All (λ (en : String × (ℕ × ClientHandler)). Follows en.0 en.1.1) a.command
            client_handlers handlers_follow found a.content c)
  ]
]
