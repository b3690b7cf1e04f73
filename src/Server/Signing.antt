-- ===== src/Server/Signing.antt =====
-- Signing in and out (`do_signin`, `do_signout` and `add_user` of src/core/Server.cpp): which
-- logins count as logged in.
use asinc_roulette.Base.{ℕ, String, ◌≡◌, refl, true, some, string_eq, arith}
use asinc_roulette.Base.Map.{Map, lookup, insert, member, lookup-insert}
use asinc_roulette.Failure.{err, already_logged_in}
use asinc_roulette.Storage.{Sqlite, User}
use asinc_roulette.Server.State.{Server, Content, ◌>>=◌}
use asinc_roulette.Server.Keeps.{Keeps, Keeps-modify, Keeps-send, keeps_rules}
use asinc_roulette.Server.Users.{add_user}
use asinc_roulette.Server.Requests.{do_signin, do_signout}

abbrev IsOnline : {D : Type 0} → String → Server D → Type 0
IsOnline login s = member login s.login2id ≡ true

member-insert :
    (k j : String) (v : ℕ) (m : Map String ℕ) → member j m ≡ true → member j (insert k v m) ≡ true
member-insert k j v m h = ground (arith, lookup-insert k j v m)

module _ {D : Type 0} (login : String) where
  add_user-IsOnline : (id : ℕ) (user : User) → Keeps (IsOnline {D = D} login) (add_user id user)
  unfolding add_user
  add_user-IsOnline id user = Keeps-modify _ (λ s h. member-insert user.login login id s.login2id h)

module _ {D : Type 0} ⦃sql : Sqlite D⦄ where
  do_signout-IsOnline : (login : String) (id : ℕ) → Keeps (IsOnline {D = D} login) (do_signout id)
  unfolding do_signout
  do_signout-IsOnline login id =
      let sent = λ (content : Content).
        Keeps-send {P = IsOnline {D = D} login} id "success" "signout" content (λ s out h. h) in
      search (keeps_rules, add_user-IsOnline, sent) depth 7

  do_signin-online :
      (id : ℕ) (login password : String) (s : Server D)
      → IsOnline login s
      → do_signin id login password s ≡ (err (already_logged_in login), s)
  unfolding do_signin ◌>>=◌
  do_signin-online id login password s h = rw h refl

  -- Once a login counts as logged in, it still does after the client has signed out: nobody can
  -- sign in with it, whatever the password, and the attempt changes nothing.
  pub signed_out_blocked :
      (id other j : ℕ) (login password : String) (s : Server D)
      → lookup login s.login2id ≡ some j
      → do_signin other login password (do_signout id s).1
        ≡ (err (already_logged_in login), (do_signout id s).1)
  signed_out_blocked id other j login password s online =
      do_signin-online other login password (do_signout id s).1
        ((do_signout-IsOnline login id).at s (ground arith))
