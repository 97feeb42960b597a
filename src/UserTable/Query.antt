-- ===== src/UserTable/Query.antt =====
-- `updateInfo` and `queryUser`: what they return for what the server answers.
use cpp_project.Base.{ℕ, ◌≡◌, refl, true, false, Option, none, some, ok}
use cpp_project.DbConn.{Conn, Mysql, execute_update, execute_query}
use cpp_project.DbConn.Answers.{execute_update-false}
use cpp_project.ResultSet.{Row, new_result_set, next}
use cpp_project.UserTable.{User, Results, update_sql, update_info, query_sql, query_user, read_user}

-- `updateInfo` returns false whatever the server answers, and sends the update of the user with the new
-- domain.
update_info-false :
    {S : Type 0} (api : Mysql S) (s : S) (c : Conn) (u : User) (id now : ℕ)
    → ((update_info api s c u id now).0 ≡ false)
      × ((update_info api s c u id now).2
          ≡ (execute_update api s c (update_sql (update_info api s c u id now).1 id now) true).1)
unfolding update_info
update_info-false api s c u id now = (execute_update-false api s c _, refl)

module _ {S : Type 0} (api : Mysql S) (results : Results S) (s : S) (c : Conn) (u : User)
    (id : ℕ) where
  abbrev pub answered : Option ℕ × S
  answered = execute_query api s c (query_sql id)

  -- `queryUser` returns false, and keeps the user, if there is no result or it has no row; otherwise it
  -- returns true with the user that it reads from the first row, if that is defined.
  query_user_outcome :
      (answered.0 ≡ none → query_user api results s c u id ≡ ok (false, u, answered.1))
      × ((q : ℕ)
          → answered.0 ≡ some q
          → results.mysql_fetch_row answered.1 q ≡ none
          → query_user api results s c u id ≡ ok (false, u, answered.1))
      × ((q : ℕ) (row : Row) (u' : User)
          → answered.0 ≡ some q
          → results.mysql_fetch_row answered.1 q ≡ some row
          → read_user u
              (record (new_result_set (results.mysql_fetch_fields answered.1 q)) { row = some row })
            ≡ ok u'
          → query_user api results s c u id ≡ ok (true, u', answered.1))
  unfolding query_user next
  query_user_outcome = (
    λ e. rw (query_user, e) refl,
    λ q e f. rw (query_user, e, f) refl,
    λ q row u' e f g. rw (query_user, e, f, g) refl,
  )
