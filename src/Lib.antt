-- ===== src/Lib.antt =====
-- chandlery: independent Go packages for services. Modelled are the stores of cache, the
-- object-document mapper odm, the disks of storage, the grouping of validator, env, respond and db.
--
-- cache. cache/cache.go states the contract of a store. Cache/Memory models cache/memory/memory.go:
-- a `Store` is the prefix and the map, each method is a function from the store, and from the
-- readings of the clock that it takes, to the store and the results; the mutex makes a method one
-- step. Instants are nanoseconds since Go's zero time, without bound. Cache/Numbers writes out what
-- the store uses of strconv, and the tests for overflow on int64 with their wrap-around.
-- Cache/Memory/Contract is the contract as an ideal map; Cache/Memory/Refinement relates the two,
-- and Cache/Memory/Runs their sequences of calls. Cache/Redis models cache/redis/redis.go over a
-- record for the client of go-redis; the scan of Flush is the list of keys that it yields and the
-- error that it ends with. Connections are not modelled.
--
-- odm. Odm/Value has the values that odm looks at (Go's `any`), Odm/Filter is odm/filter.go,
-- Odm/Query with its children is odm/query.go, odm/update.go and odm/soft_delete.go: a `Query` is
-- the struct, a builder method a function to a new query. Queries are values, so that cloneAppend,
-- which keeps two queries from sharing an array, is the appending of lists. What is relied on of the
-- server is the record `IsMongo` of Odm/Mongo, which says how the operators of filters are matched.
-- Odm/Cursor and Odm/Pagination are odm/cursor.go and odm/pagination.go, over parameters for BSON,
-- base64 and the driver. Odm/Terminal has the methods that send a query (odm/execute.go,
-- odm/soft_delete.go) over a record for the driver. Odm/Relation and Odm/Loading are odm/relation.go
-- with odm/has_many.go, odm/has_one.go, odm/belongs_to.go and odm/belongs_to_many.go: what a
-- relation must have, and how the related documents are matched and attached; Odm/Loading/Related
-- runs the query for them and the relations nested in theirs. Odm/State is odm/state.go, and
-- Odm/State/Saving has Create and Save of odm/collection.go and odm/state.go, with hooks and
-- observers as parameters; Odm/State/Events says which hook and which observers they run, as
-- odm/hooks.go does. A model is its own
-- fields beside the state that the package keeps.
--
-- Odm/Bulk (CreateMany), Odm/Aggregation, Odm/Observer, Odm/Index and Odm/Collection (Scope, and the
-- methods of a collection that start a query) are the files of those names in odm.
--
-- db. Db/Model has the hooks of db/model.go and ConditionalUpdate of db/repository.go, Db/Repository
-- the methods of the repository, over a record for bun and with a heap for the rows that pointers
-- point to; Db/Postgres is db/postgres/postgres.go, over parameters for package url and the driver.
--
-- validator. Validator is validator/validator.go: SanitizeIssues with its map from a field to the
-- index of the field's entry. Validator/Request is the middleware of validator/nethttp/nethttp.go
-- and validator/fiber/fiber.go, over parameters for the decoding and the schema.
--
-- storage. Storage/S3 is storage/s3/s3.go over a record for the client of minio, whose `World` is
-- the server: Storage/S3/Objects has the methods on objects, Storage/S3/Directories the listings and
-- directories, with the iterator of a listing as a value that has asked nothing yet.
-- Storage/S3/Calls makes the methods a data type, and states what a request can reach;
-- Storage/S3/Contract is the part of the interface of storage/storage.go that is about files, as a
-- map of paths to contents. Storage/S3/Config has its configuration. Storage/Local is
-- storage/local/local.go over a record for os.Root, with Storage/Local/Path for the spelling of
-- paths (package path is written out), Storage/Local/Listing for the listings, and
-- Storage/Local/Signed for signed URLs, over parameters for package url and the HMAC.
--
-- env and respond. Env is env/env.go over a record for the environment. Respond is
-- respond/respond.go, and Respond/Adapters what respond/nethttp/nethttp.go (NetHttp) and
-- respond/fiber/fiber.go (Fiber) make of an error that a handler returns: the status, the response,
-- and whether it is logged.
--
-- Every loop is structural recursion over the list that it walks. There are two fuels: that of
-- FormatInt's digits in Cache/Numbers, n + 1 for a number n, and that of a client's walk through the
-- pages in Odm/Pagination/Complete, which is enough when it is more than the documents of the query.
--
-- Not modelled: the conformance suites and the programs under examples; transactions, and BulkWrite,
-- which hands its arguments to the driver; the writing of JSON and logs; reflection on model types;
-- connection set-up, contexts and error texts (an error keeps its kind and its arguments).
pub mod Base
pub mod Cache
pub mod Db
pub mod Env
pub mod Odm
pub mod Respond
pub mod Storage
pub mod Tests
pub mod Validator
