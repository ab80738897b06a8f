-- ===== src/Lib.antt =====
-- Verification of BehaviorTree.ROS2: the wrappers that let a node of a behavior tree call ROS
-- actions and services, publish on topics and subscribe to them, and the action server that
-- executes trees.
--
-- Files and what they model (paths from the repository's root; I stands for
-- behaviortree_ros2/include/behaviortree_ros2):
--   Prelude, Program   shared names; how C++ code runs: a state, and a result, an exception or
--                      undefined behaviour; Program/Preserving: what a program keeps
--   Ros                the enumerations and functions of BehaviorTree.CPP and rclcpp that are used
--   Ports              `providedBasicPorts` of the wrappers; Basic: its theorem
--   RosNodeParams      I/ros_node_params.hpp
--   Registry           the static registries of shared clients, in the `createClient` functions;
--                      Sharing has its laws; Threads: `createClient` in several threads, with
--                      Sharing and Lost below it; Copies: the two wrappers' `createClient`
--   ClientInstances    the constructors of the client instances in the headers of I; Executors:
--                      which executors have the groups of their endpoints
--   ActionNode         I/bt_action_node.hpp. Client: the constructor, `createClient`,
--                      `setActionName`. Cancel: the goal's callbacks, `cancelGoal`, `halt`. Tick:
--                      `tick`, one function for each part of its body. Below them stand the
--                      theorems: Naming; Handles; Status, Phases, Live, Restart. Runs: a node's
--                      life as a step relation, with Safety, Callbacks, Faults, Deadline and
--                      Throwing (Unsent, Rejected) below it, and Machine, the abstract machine of
--                      a life, with Sending and Refinement. World: the nodes of a process with
--                      their registry, with SameClients, Looks and Shared below it
--   ServiceNode        I/bt_service_node.hpp; Tick: `tick`, `halt`; Phases: its theorems;
--                      Runs: a node's life, with Safety, Deadline and Throwing below it
--   TopicPubNode       I/bt_topic_pub_node.hpp; Topics, Life: its theorems
--   TopicSubNode       I/bt_topic_sub_node.hpp, with all nodes and the subscriber instances that
--                      they share as one state; Deliveries, Slots: its theorems; Life: all lives
--                      of the nodes, with Subscribed, Hearing and Null below it
--   BtUtils            behaviortree_ros2/src/bt_utils.cpp: `ConvertNodeStatus`,
--                      `GetDirectoryPath`; Loading: `LoadBehaviorTrees`, `LoadPlugin`,
--                      `RegisterPlugins`, `RegisterBehaviorTrees`; Paths, Order, Log: the theorems
--   TreeExecutionServer
--                      behaviortree_ros2/src/tree_execution_server.cpp and the virtual functions
--                      of I/tree_execution_server.hpp: the constructor, registration,
--                      `handle_goal`, `handle_cancel`; Getters: `treeName`, `goalPayload`,
--                      `factory`; Startup: the timer's calls; Reloading: the trees during a
--                      registration; Execute: `execute`, with the theorems in Ending, Progress,
--                      Report, Pacing, Frame and Escapes; Threads: `handle_accepted`, the thread,
--                      the destructor; Life: the threads, `execute` and the timer together;
--                      ServiceTree, ActionTree: `execute` with a tree that is one RosServiceNode
--                      or one RosActionNode, whose Results follows the action's result
--   RosLogger          behaviortree_ros2/src/bt_ros_logger.cpp; Columns: its theorem
--   Plugins            I/plugins.hpp; Loaders: `RegisterRosNode` beside `LoadPlugin`
--   Samples            btcpp_ros2_samples/src. SleepAction, SleepServer, SetBool, ReceiveString,
--                      MyActionServer: the nodes and servers; Ending, Robots, RoundTrip: their
--                      theorems. Programs: the main functions; Nodes: the nodes that a program
--                      makes of its tree; Meeting: bool_client against bool_server, by Clients,
--                      Robots and Asking
-- The modules called Tests run the definitions on concrete inputs.
--
-- How the parts interact: the wrappers' `createClient` goes through Registry, whose instances
-- several nodes share; the server loads nodes and trees by BtUtils, ticks the tree, whose leaves
-- may be wrappers, and reports the status as `ConvertNodeStatus` writes it. The samples are
-- derived classes of three wrappers and of the server, with the servers that they call and the
-- programs that run them.
--
-- State and environment: the members of a class are a record; what rclcpp, BehaviorTree.CPP, the
-- file system and the derived class answer during one call is another record (`Env`,
-- `ExecuteEnv`, `Host`), an argument of the definitions, so a theorem holds for every answer that
-- its hypotheses admit. The callbacks that an executor runs while it spins are a list in that
-- record. What the code asks of the outside is listed, the latest first (`calls`, `events`,
-- `published`).
--
-- Bounds and fuel: `execute` loops until something ends it, so the rounds of its loop are a list
-- of what happens in each; where they are used up and the loop goes on, the result is
-- `unfinished`, which is no result of the code. The loop of the sleep server is modelled in the
-- same way; enough rounds are one more than the milliseconds of the goal. All else is structural
-- recursion. Times are nanoseconds and timeouts milliseconds in ℕ: the 64-bit overflow of a time
-- is not modelled, and the conversion of a timeout through a double is the parameter
-- `from_seconds`. The period of the loop is rounded down as the cast does it, for the frequencies
-- from 1 to 1000 that the parameters admit. The `int32` of a sleep goal is its bit pattern, and
-- the sleep server's counter is an `int` that faults when it overflows.
--
-- Not modelled: the end of an instance that nobody holds; the getters of the server that hand out
-- the node, the tree and the blackboard; writing to the log, but for the line of RosLogger; the
-- mutexes, but for that of `createClient` in Registry/Threads, since each call is one step; what
-- the server does at the same time as a registration, but for `get_loaded_trees`; a constructor
-- of a node that throws, in ActionNode/World, since it leaves no node; what a node's spinning
-- does to other nodes of the same action client, but for the callbacks that a node overhears;
-- state that a derived class keeps; a goal handle of the server whose own methods throw; the
-- contents of goals, feedback and results, which are types of unknown values. In Samples/Programs
-- what rclcpp and BehaviorTree.CPP do is a list of calls, each with its outcome as a parameter,
-- and so is how they read an XML's attributes.
pub mod Prelude
pub mod Program
pub mod Ros
pub mod Registry
pub mod RosNodeParams
pub mod Ports
pub mod ActionNode
pub mod ServiceNode
pub mod TopicPubNode
pub mod TopicSubNode
pub mod BtUtils
pub mod ClientInstances
pub mod TreeExecutionServer
pub mod Samples
pub mod RosLogger
pub mod Plugins
