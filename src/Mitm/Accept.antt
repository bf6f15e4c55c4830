-- ===== src/Mitm/Accept.antt =====
-- The accept loop as a client of Serve sees it.
use hallmaster_proxy.Base.{ℕ, Bool, true, false, not, List, [], ◌∷◌, ◌≡◌, refl}
use hallmaster_proxy.Mitm.{Accepted, connection, failed, accept_round, accept_all, serve}

-- The connections that arrive before the first error under a cancelled context, the last first,
-- in front of `served`; and whether there is such an error.
abbrev pub connections : List ℕ → List Accepted → List ℕ
connections served [] = served
connections served (connection conn ∷ accepts) = connections (conn ∷ served) accepts
connections served (failed true ∷ accepts) = served
connections served (failed false ∷ accepts) = connections served accepts

abbrev pub is_cancelled : List Accepted → Bool
is_cancelled [] = false
is_cancelled (connection conn ∷ accepts) = is_cancelled accepts
is_cancelled (failed true ∷ accepts) = true
is_cancelled (failed false ∷ accepts) = is_cancelled accepts

returned_stays :
    (served : List ℕ) (accepts : List Accepted)
    → accept_all (record { ready = false; served = served; returned = true }) accepts
      ≡ record { ready = false; served = served; returned = true }
unfolding accept_all accept_round
returned_stays served [] = refl
returned_stays served (connection conn ∷ accepts) = returned_stays served accepts
returned_stays served (failed cancelled ∷ accepts) = returned_stays served accepts

accept_all-connections :
    (served : List ℕ) (accepts : List Accepted)
    → accept_all (record { ready = true; served = served; returned = false }) accepts ≡ record {
      ready = not (is_cancelled accepts);
      served = connections served accepts;
      returned = is_cancelled accepts;
    }
unfolding accept_all accept_round
accept_all-connections served [] = refl
accept_all-connections served (connection conn ∷ accepts) =
    accept_all-connections (conn ∷ served) accepts
accept_all-connections served (failed true ∷ accepts) = returned_stays served accepts
accept_all-connections served (failed false ∷ accepts) = accept_all-connections served accepts

-- Serve hands every connection to a goroutine, in order, until Accept fails under a cancelled
-- context; then it returns, and the proxy is ready until then and not afterwards. Other errors of
-- Accept, however many, do not end the loop.
pub serve-connections :
    (accepts : List Accepted)
    → serve accepts ≡ record {
      ready = not (is_cancelled accepts);
      served = connections [] accepts;
      returned = is_cancelled accepts;
    }
unfolding serve
serve-connections accepts = accept_all-connections [] accepts
