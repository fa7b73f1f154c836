-- ===== src/Service/Answers.antt =====
-- Which requests reach the system.
use pod_installer.Base.{
  Option, none, some, ◌≡◌, refl, ◌⊎◌, inl, inr, arith, Bytes, text, equal_iff, Bool-cases,
}
use pod_installer.Error.{Result, ok, err}
use pod_installer.Service.{Config, HttpRequestLine, Query, one, parse_request_line, parse_query}
use pod_installer.Service.Handler.{
  Surroundings, with_parameters, handle_deploy_bundle, asks, deploy_answer, answer, answer_line,
  handle_request,
}

-- a request to deploy, with both parameters
pub record IsDeployRequest (raw : Bytes) : Type 0 where
  pub line : HttpRequestLine
  pub query : Query
  pub user : Bytes
  pub quadlet_path : Bytes
  pub read : parse_request_line raw ≡ ok line
  pub read_query : parse_query line.target ≡ ok query
  pub method : line.method ≡ text "POST"
  pub path : query.path ≡ text "/v1/deploy-bundle"
  pub user_given : one query (text "user") ≡ some user
  pub quadlet_given : one query (text "quadletPath") ≡ some quadlet_path

module _ {S : Type 0} (around : Surroundings S) (config : Config) where
  deploy_answer-state : (o : Result Bytes × S) → (deploy_answer around config o).1 ≡ o.1
  deploy_answer-state (ok body, s) = refl
  deploy_answer-state (err e, s) = refl

  -- without both parameters nothing is done
  unasked_lem :
      (query : Query) (user quadlet_path : Option Bytes) (s : S)
      → ((with_parameters around config query user quadlet_path s).1 ≡ s)
        ⊎ ((u : Bytes) × (p : Bytes) × (user ≡ some u) × (quadlet_path ≡ some p))
  unasked_lem query none quadlet_path s = inl refl
  unasked_lem query (some user) none s = inl refl
  unasked_lem query (some user) (some path) s = inr (user, path, refl, refl)

  module _ (raw : Bytes) (s : S) where
    answer_lem :
        (line : HttpRequestLine) (query : Query)
        → parse_request_line raw ≡ ok line
        → parse_query line.target ≡ ok query
        → ((answer around config line (ok query) s).1 ≡ s) ⊎ IsDeployRequest raw
    unfolding handle_deploy_bundle
    answer_lem line query read read_query =
        elim (Bool-cases (asks line query (text "GET") (text "/healthz"))) [
          | inl health ↦ rw health (inl refl)
          | inr other ↦
              elim (Bool-cases (asks line query (text "POST") (text "/v1/deploy-bundle"))) [
                | inr unknown ↦ rw (other, unknown) (inl refl)
                | inl deploys ↦
                    rw
                      (
                        other,
                        deploys,
                        deploy_answer-state (
                            with_parameters around config query (one query (text "user"))
                              (one query (text "quadletPath")) s),
                      )
                      (elim (unasked_lem query (one query (text "user"))
                        (one query (text "quadletPath")) s) [
                          | inl same ↦ inl same
                          | inr (user, path, given, given') ↦ inr (record {
                            line = line;
                            query = query;
                            user = user;
                            quadlet_path = path;
                            read = read;
                            read_query = read_query;
                            method = (equal_iff line.method (text "POST")).0 (ground arith);
                            path =
                                (equal_iff query.path (text "/v1/deploy-bundle")).0 (ground arith);
                            user_given = given;
                            quadlet_given = given';
                          })
                        ])
              ]
        ]

    query_lem :
        (line : HttpRequestLine) (query : Result Query)
        → parse_request_line raw ≡ ok line
        → parse_query line.target ≡ query
        → ((answer around config line query s).1 ≡ s) ⊎ IsDeployRequest raw
    query_lem line (err e) read h = inl refl
    query_lem line (ok query) read h = answer_lem line query read h

    line_lem :
        (line : Result HttpRequestLine)
        → parse_request_line raw ≡ line
        → ((answer_line around config line s).1 ≡ s) ⊎ IsDeployRequest raw
    line_lem (err e) h = inl refl
    line_lem (ok line) h = query_lem line (parse_query line.target) h refl

  -- A request leaves the system as it was, whatever it holds, unless its line and its query can be
  -- read, it is a POST to /v1/deploy-bundle, and it has both parameters.
  pub handle_request-IsDeployRequest :
      (raw : Bytes) (s : S) → ((handle_request around config raw s).1 ≡ s) ⊎ IsDeployRequest raw
  unfolding handle_request
  handle_request-IsDeployRequest raw s = line_lem raw s (parse_request_line raw) refl
