-- ===== src/Call/Release.antt =====
-- What `releaseUser` and `releaseSession` leave in `userCalls`.
use chat_be.Base.{
  ℕ, ◌≡◌, false, ◌&&◌, some, List, [], ◌∷◌, arith, ◌==◌, includes, Dict, lookup, lookup-delete,
}
use chat_be.Call.Service.{release_user, release_users}

pub lookup-release_user :
    (w u c d : ℕ) (m : Dict ℕ)
    → lookup w (release_user u c m) ≡ some d
    → (lookup w m ≡ some d) × ((d == c && w == u) ≡ false)
unfolding release_user
lookup-release_user w u c d m e = ground (arith, lookup-delete w u m)

-- What is left was there before, and is of another call or of a user that is not listed.
pub lookup-release_users :
    (w : ℕ) (us : List ℕ) (c d : ℕ) (m : Dict ℕ)
    → lookup w (release_users us c m) ≡ some d
    → (lookup w m ≡ some d) × ((d == c && includes w us) ≡ false)
unfolding release_users
lookup-release_users w [] c d m e = (e, ground arith)
lookup-release_users w (u ∷ us) c d m e =
    let (before, apart) = lookup-release_users w us c d (release_user u c m) e in
    let (first, not_u) = lookup-release_user w u c d m before in (first, ground arith)
