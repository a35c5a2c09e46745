-- ===== src/Http.antt =====
-- What a request ends with: a value, or one of the exceptions that the services throw (NestJS's
-- HTTP exceptions, and the database client's errors that no service turns into one). Messages are
-- left out.

pub data Error : Type 0 where
  bad_request conflict forbidden not_found unauthorized : Error
  unique_violation record_not_found internal : Error

pub data Result (A : Type 0) : Type 0 where
  ok : A → Result A
  err : Error → Result A
